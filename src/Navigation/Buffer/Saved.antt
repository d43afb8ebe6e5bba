-- ===== src/Navigation/Buffer/Saved.antt =====
-- The context that deserialize reads back from what serialize has written.
use level_fs.Base.{
  ℕ, zero, suc, ◌+◌, ◌^◌, ◌<◌, ◌≤◌, ltb, ◌≡◌, refl, ◌∙◌, sym, ap, List, [], ◌∷◌, false, arith, mem,
  length, String, take,
}
use level_fs.Navigation.{NavigationContext}
use level_fs.Navigation.Buffer.{
  Buffer, put_bytes, get_bytes, to_bytes, from_bytes, c_string, zeroed, image, serialize,
  deserialize,
}
use level_fs.Navigation.Buffer.Bytes.{
  from_bytes-to_bytes, length-to_bytes, get_bytes-apart, get_bytes-put_bytes, c_string-put_bytes,
  put_bytes_above,
}

-- A context whose fields fit their places: 64-bit numbers, 32-bit permissions, a path of up to 100
-- characters and a version of up to 32, none of them a zero.
pub record IsStorable (ctx : NavigationContext) : Type 0 where
  pub dir_small : ctx.current_dir_cluster < 2 ^ 64
  pub content_small : ctx.current_content_cluster < 2 ^ 64
  pub root_small : ctx.root_content_cluster < 2 ^ 64
  pub level_small : ctx.current_level_id < 2 ^ 64
  pub root_level_small : ctx.root_level_id < 2 ^ 64
  pub perms_small : ctx.current_folder_perms < 2 ^ 32
  pub path_short : length ctx.current_path ≤ 100
  pub path_plain : mem 0 ctx.current_path ≡ false
  pub version_short : length ctx.current_version ≤ 32
  pub version_plain : mem 0 ctx.current_version ≡ false

take_all : (n : ℕ) (s : String) → length s ≤ n → take n s ≡ s
take_all zero [] h = refl
take_all zero (x ∷ xs) h = absurd (omega (arith, h))
take_all (suc n) [] h = refl
take_all (suc n) (x ∷ xs) h = ap (λ ys. x ∷ ys) (take_all n xs (omega (arith, h)))

-- An integer is read back from its place.
number_back :
    (n o x : ℕ) (b : Buffer)
    → x < 256 ^ n
    → from_bytes (get_bytes o n (put_bytes o (to_bytes n x) b)) ≡ x
number_back n o x b h =
    ap (λ k. from_bytes (get_bytes o k (put_bytes o (to_bytes n x) b))) (sym (length-to_bytes n x))
    ∙ ap from_bytes (get_bytes-put_bytes o (to_bytes n x) b)
    ∙ from_bytes-to_bytes n x h

-- A write behind the place does not change the number read from it.
behind :
    (n p o : ℕ) (bs : List ℕ) (b : Buffer) (x : ℕ)
    → p + n ≤ o
    → from_bytes (get_bytes p n b) ≡ x
    → from_bytes (get_bytes p n (put_bytes o bs b)) ≡ x
behind n p o bs b x h e = ap from_bytes (get_bytes-apart n p o bs b (ground arith)) ∙ e

-- The layers of the image.
abbrev layer1 : NavigationContext → Buffer
layer1 ctx = put_bytes 0 (to_bytes 8 ctx.current_dir_cluster) zeroed

abbrev layer2 : NavigationContext → Buffer
layer2 ctx = put_bytes 8 (to_bytes 8 ctx.current_content_cluster) (layer1 ctx)

abbrev layer3 : NavigationContext → Buffer
layer3 ctx = put_bytes 16 (to_bytes 8 ctx.root_content_cluster) (layer2 ctx)

abbrev layer4 : NavigationContext → Buffer
layer4 ctx = put_bytes 24 (to_bytes 8 ctx.current_level_id) (layer3 ctx)

abbrev layer5 : NavigationContext → Buffer
layer5 ctx = put_bytes 32 (to_bytes 8 ctx.root_level_id) (layer4 ctx)

abbrev layer6 : NavigationContext → Buffer
layer6 ctx = put_bytes 40 (to_bytes 4 ctx.current_folder_perms) (layer5 ctx)

abbrev layer7 : NavigationContext → Buffer
layer7 ctx = put_bytes 48 (take 100 ctx.current_path) (layer6 ctx)

-- Over the six numbers, the buffer is zero from offset 48 on.
zero_above : (n o x i : ℕ) (b : Buffer) → o + n ≤ i → b i ≡ 0 → put_bytes o (to_bytes n x) b i ≡ 0
zero_above n o x i b h e =
    put_bytes_above o i (to_bytes n x) b (omega (arith, h, length-to_bytes n x)) ∙ e

layer6_zero : (ctx : NavigationContext) (i : ℕ) → 48 ≤ i → layer6 ctx i ≡ 0
layer6_zero ctx i h = zero_above 4 40 _ i (layer5 ctx) (omega (arith, h)) (
    zero_above 8 32 _ i (layer4 ctx) (omega (arith, h)) (
      zero_above 8 24 _ i (layer3 ctx) (omega (arith, h)) (
        zero_above 8 16 _ i (layer2 ctx) (omega (arith, h)) (
          zero_above 8 8 _ i (layer1 ctx) (omega (arith, h))
            (zero_above 8 0 _ i zeroed (omega (arith, h)) refl)))))

path_back :
    (ctx : NavigationContext)
    → IsStorable ctx
    → c_string (get_bytes 48 100 (image ctx)) ≡ ctx.current_path
path_back ctx s =
    ap c_string (get_bytes-apart 100 48 148 (take 32 ctx.current_version) (layer7 ctx) refl)
    ∙ rw (take_all 100 ctx.current_path s.path_short) (
        c_string-put_bytes 48 100 ctx.current_path (layer6 ctx) s.path_plain s.path_short
          (layer6_zero ctx))

version_back :
    (ctx : NavigationContext)
    → IsStorable ctx
    → c_string (get_bytes 148 32 (image ctx)) ≡ ctx.current_version
version_back ctx s =
    rw (take_all 32 ctx.current_version s.version_short, take_all 100 ctx.current_path s.path_short)
      (c_string-put_bytes 148 32 ctx.current_version (put_bytes 48 ctx.current_path (layer6 ctx))
        s.version_plain s.version_short
        (λ i le.
          put_bytes_above 48 i ctx.current_path (layer6 ctx) (omega (arith, le, s.path_short))
          ∙ layer6_zero ctx i (omega (arith, le))))

current_dir_cluster_back :
    (ctx : NavigationContext)
    → IsStorable ctx
    → from_bytes (get_bytes 0 8 (image ctx)) ≡ ctx.current_dir_cluster
current_dir_cluster_back ctx s =
    behind 8 0 148 (take 32 ctx.current_version) (layer7 ctx) ctx.current_dir_cluster (omega arith)
      (behind 8 0 48 (take 100 ctx.current_path) (layer6 ctx) ctx.current_dir_cluster (omega arith)
        (behind 8 0 40 (to_bytes 4 ctx.current_folder_perms) (layer5 ctx) ctx.current_dir_cluster
          (omega arith)
          (behind 8 0 32 (to_bytes 8 ctx.root_level_id) (layer4 ctx) ctx.current_dir_cluster
            (omega arith)
            (behind 8 0 24 (to_bytes 8 ctx.current_level_id) (layer3 ctx) ctx.current_dir_cluster
              (omega arith)
              (behind 8 0 16 (to_bytes 8 ctx.root_content_cluster) (layer2 ctx)
                ctx.current_dir_cluster (omega arith)
                (behind 8 0 8 (to_bytes 8 ctx.current_content_cluster) (layer1 ctx)
                  ctx.current_dir_cluster (omega arith)
                  (number_back 8 0 ctx.current_dir_cluster zeroed s.dir_small)))))))

current_content_cluster_back :
    (ctx : NavigationContext)
    → IsStorable ctx
    → from_bytes (get_bytes 8 8 (image ctx)) ≡ ctx.current_content_cluster
current_content_cluster_back ctx s =
    behind 8 8 148 (take 32 ctx.current_version) (layer7 ctx) ctx.current_content_cluster
      (omega arith)
      (behind 8 8 48 (take 100 ctx.current_path) (layer6 ctx) ctx.current_content_cluster
        (omega arith)
        (behind 8 8 40 (to_bytes 4 ctx.current_folder_perms) (layer5 ctx)
          ctx.current_content_cluster (omega arith)
          (behind 8 8 32 (to_bytes 8 ctx.root_level_id) (layer4 ctx) ctx.current_content_cluster
            (omega arith)
            (behind 8 8 24 (to_bytes 8 ctx.current_level_id) (layer3 ctx)
              ctx.current_content_cluster (omega arith)
              (behind 8 8 16 (to_bytes 8 ctx.root_content_cluster) (layer2 ctx)
                ctx.current_content_cluster (omega arith)
                (number_back 8 8 ctx.current_content_cluster (layer1 ctx) s.content_small))))))

root_content_cluster_back :
    (ctx : NavigationContext)
    → IsStorable ctx
    → from_bytes (get_bytes 16 8 (image ctx)) ≡ ctx.root_content_cluster
root_content_cluster_back ctx s =
    behind 8 16 148 (take 32 ctx.current_version) (layer7 ctx) ctx.root_content_cluster
      (omega arith)
      (behind 8 16 48 (take 100 ctx.current_path) (layer6 ctx) ctx.root_content_cluster
        (omega arith)
        (behind 8 16 40 (to_bytes 4 ctx.current_folder_perms) (layer5 ctx) ctx.root_content_cluster
          (omega arith)
          (behind 8 16 32 (to_bytes 8 ctx.root_level_id) (layer4 ctx) ctx.root_content_cluster
            (omega arith)
            (behind 8 16 24 (to_bytes 8 ctx.current_level_id) (layer3 ctx) ctx.root_content_cluster
              (omega arith)
              (number_back 8 16 ctx.root_content_cluster (layer2 ctx) s.root_small)))))

current_level_id_back :
    (ctx : NavigationContext)
    → IsStorable ctx
    → from_bytes (get_bytes 24 8 (image ctx)) ≡ ctx.current_level_id
current_level_id_back ctx s =
    behind 8 24 148 (take 32 ctx.current_version) (layer7 ctx) ctx.current_level_id (omega arith) (
      behind 8 24 48 (take 100 ctx.current_path) (layer6 ctx) ctx.current_level_id (omega arith) (
        behind 8 24 40 (to_bytes 4 ctx.current_folder_perms) (layer5 ctx) ctx.current_level_id
          (omega arith)
          (behind 8 24 32 (to_bytes 8 ctx.root_level_id) (layer4 ctx) ctx.current_level_id
            (omega arith) (number_back 8 24 ctx.current_level_id (layer3 ctx) s.level_small))))

root_level_id_back :
    (ctx : NavigationContext)
    → IsStorable ctx
    → from_bytes (get_bytes 32 8 (image ctx)) ≡ ctx.root_level_id
root_level_id_back ctx s =
    behind 8 32 148 (take 32 ctx.current_version) (layer7 ctx) ctx.root_level_id (omega arith) (
      behind 8 32 48 (take 100 ctx.current_path) (layer6 ctx) ctx.root_level_id (omega arith) (
        behind 8 32 40 (to_bytes 4 ctx.current_folder_perms) (layer5 ctx) ctx.root_level_id
          (omega arith) (number_back 8 32 ctx.root_level_id (layer4 ctx) s.root_level_small)))

current_folder_perms_back :
    (ctx : NavigationContext)
    → IsStorable ctx
    → from_bytes (get_bytes 40 4 (image ctx)) ≡ ctx.current_folder_perms
current_folder_perms_back ctx s =
    behind 4 40 148 (take 32 ctx.current_version) (layer7 ctx) ctx.current_folder_perms
      (omega arith)
      (behind 4 40 48 (take 100 ctx.current_path) (layer6 ctx) ctx.current_folder_perms
        (omega arith) (number_back 4 40 ctx.current_folder_perms (layer5 ctx) s.perms_small))

-- A context written by serialize into at least 256 bytes is read back by deserialize whole but for
-- the root's version, which is not stored and stays what the reader had. Its fields fit their places.
pub deserialize-serialize :
    (ctx reader : NavigationContext) (size : ℕ) (buffer : Buffer)
    → 256 ≤ size
    → IsStorable ctx
    → deserialize reader size (serialize ctx size buffer)
      ≡ record ctx { root_version = reader.root_version }
unfolding serialize deserialize
deserialize-serialize ctx reader size buffer fits s =
    let enough : ltb size 256 ≡ false = ground arith in
    rw (
      enough,
      current_dir_cluster_back ctx s,
      current_content_cluster_back ctx s,
      root_content_cluster_back ctx s,
      current_level_id_back ctx s,
      root_level_id_back ctx s,
      current_folder_perms_back ctx s,
      path_back ctx s,
      version_back ctx s,
    )
