-- ===== src/Console/Written.antt =====
-- What reaches the outputs.
use level_fs.Base.{
  ℕ, ◌==◌, ◌≡◌, refl, sym, ap, subst, ◌∙◌, if◌then◌else◌, List, [], ◌∷◌, ◌++◌, Bool, true, false,
  not, String, is_empty, newline, append_assoc, append-nil, arith, Bool-cases, inl, inr,
}
use level_fs.Console.{
  StreamBuf, emit, push_history, flush_line, flush_partial, flush_buf, write_char, write_from,
  write_text,
}

unfoldable pub write_chars : String → StreamBuf → StreamBuf
write_chars [] b = b
write_chars (c ∷ cs) b = write_chars cs (write_char c b)

with_segment : String → StreamBuf → StreamBuf
with_segment segment b = record b { buffer = b.buffer ++ segment }

write_from-write_chars :
    (segment s : String) (b : StreamBuf)
    → write_from segment s b ≡ write_chars s (with_segment segment b)
unfolding write_from write_chars with_segment write_char
write_from-write_chars [] [] b = ap (λ t. record b { buffer = t }) (sym (append-nil b.buffer))
write_from-write_chars (x ∷ xs) [] b = refl
write_from-write_chars segment (c ∷ cs) b = elim (Bool-cases (c == newline)) [
  | inl e ↦ rw e (
      write_from-write_chars [] cs (flush_line (with_segment segment b))
      ∙ ap (λ t. write_chars cs (record (flush_line (with_segment segment b)) { buffer = t }))
          (append-nil (flush_line (with_segment segment b)).buffer))
  | inr e ↦ rw e (
      write_from-write_chars (segment ++ c ∷ []) cs b
      ∙ ap (λ t. write_chars cs (record b { buffer = t }))
          (sym (append_assoc b.buffer segment (c ∷ []))))
]

-- Writing a text at once does what writing its characters one by one does, to the buffer, the history
-- and the three outputs.
pub write_text-write_chars : (s : String) (b : StreamBuf) → write_text s b ≡ write_chars s b
unfolding write_text with_segment
write_text-write_chars s b =
    write_from-write_chars [] s b
    ∙ ap (λ t. write_chars s (record b { buffer = t })) (append-nil b.buffer)

unfoldable pub join : List String → String
join [] = []
join (s ∷ ss) = s ++ join ss

join_last : (ss : List String) (s : String) → join (ss ++ s ∷ []) ≡ join ss ++ s
unfolding join
join_last [] s = append-nil s
join_last (t ∷ ss) s = ap (λ r. t ++ r) (join_last ss s) ∙ sym (append_assoc t (join ss) s)

pub data Output : Type 0 where
  write_one : ℕ → Output
  write_many : String → Output
  flush_now : Output

unfoldable pub perform : Output → StreamBuf → StreamBuf
perform (write_one c) b = write_char c b
perform (write_many s) b = write_text s b
perform flush_now b = flush_buf b

unfoldable pub perform_all : List Output → StreamBuf → StreamBuf
perform_all [] b = b
perform_all (o ∷ os) b = perform_all os (perform o b)

unfoldable pub text_of : Output → String
text_of (write_one c) = c ∷ []
text_of (write_many s) = s
text_of flush_now = []

unfoldable pub written : List Output → String
written [] = []
written (o ∷ os) = text_of o ++ written os

-- Every output that is on, with the buffer behind it, grows by a text, and none is switched.
record Grows (text : String) (b b' : StreamBuf) : Type 0 where
  on_console : b.direct_console ≡ true → b'.console ++ b'.buffer ≡ (b.console ++ b.buffer) ++ text
  on_callback :
      b.has_callback ≡ true → join b'.called ++ b'.buffer ≡ (join b.called ++ b.buffer) ++ text
  on_mirror : b.mirrored ≡ true → b'.mirror ++ b'.buffer ≡ (b.mirror ++ b.buffer) ++ text
  same_console : b'.direct_console ≡ b.direct_console
  same_callback : b'.has_callback ≡ b.has_callback
  same_mirror : b'.mirrored ≡ b.mirrored

-- An output that is on has been given one more text.
sink_on :
    (on : Bool) (console text buffer rest : String)
    → buffer ++ rest ≡ text
    → on ≡ true
    → (if on then console ++ text else console) ++ [] ≡ (console ++ buffer) ++ rest
sink_on true console text buffer rest e _ =
    append-nil (console ++ text)
    ∙ ap (λ t. console ++ t) (sym e)
    ∙ sym (append_assoc console buffer rest)
sink_on false console text buffer rest e h = cc

callback_on :
    (on : Bool) (called : List String) (text buffer rest : String)
    → buffer ++ rest ≡ text
    → on ≡ true
    → join (if on then called ++ text ∷ [] else called) ++ [] ≡ (join called ++ buffer) ++ rest
callback_on true called text buffer rest e _ =
    append-nil (join (called ++ text ∷ []))
    ∙ join_last called text
    ∙ ap (λ t. join called ++ t) (sym e)
    ∙ sym (append_assoc (join called) buffer rest)
callback_on false called text buffer rest e h = cc

-- Emitting the buffer with a text behind it, and emptying it.
emit-Grows :
    (text rest : String) (b b' : StreamBuf)
    → b.buffer ++ rest ≡ text
    → b' ≡ record b { buffer = []; history = b'.history }
    → Grows rest b (emit text b')
unfolding emit
emit-Grows text rest b b' e same =
    subst (λ (t : StreamBuf). Grows rest b (emit text t)) (sym same)
      (record {
        on_console = sink_on b.direct_console b.console text b.buffer rest e;
        on_callback = callback_on b.has_callback b.called text b.buffer rest e;
        on_mirror = sink_on b.mirrored b.mirror text b.buffer rest e;
        same_console = refl;
        same_callback = refl;
        same_mirror = refl;
      })

unchanged : (b : StreamBuf) → Grows [] b b
unchanged b = record {
  on_console = λ _. sym (append-nil (b.console ++ b.buffer));
  on_callback = λ _. sym (append-nil (join b.called ++ b.buffer));
  on_mirror = λ _. sym (append-nil (b.mirror ++ b.buffer));
  same_console = refl;
  same_callback = refl;
  same_mirror = refl;
}

buffered : (c : ℕ) (b : StreamBuf) → Grows (c ∷ []) b (record b { buffer = b.buffer ++ c ∷ [] })
buffered c b = record {
  on_console = λ _. sym (append_assoc b.console b.buffer (c ∷ []));
  on_callback = λ _. sym (append_assoc (join b.called) b.buffer (c ∷ []));
  on_mirror = λ _. sym (append_assoc b.mirror b.buffer (c ∷ []));
  same_console = refl;
  same_callback = refl;
  same_mirror = refl;
}

Grows-both : (s t : String) (a b c : StreamBuf) → Grows s a b → Grows t b c → Grows (s ++ t) a c
Grows-both s t a b c f g = record {
  on_console = λ h.
      g.on_console (f.same_console ∙ h)
      ∙ ap (λ r. r ++ t) (f.on_console h)
      ∙ append_assoc (a.console ++ a.buffer) s t;
  on_callback = λ h.
      g.on_callback (f.same_callback ∙ h)
      ∙ ap (λ r. r ++ t) (f.on_callback h)
      ∙ append_assoc (join a.called ++ a.buffer) s t;
  on_mirror = λ h.
      g.on_mirror (f.same_mirror ∙ h)
      ∙ ap (λ r. r ++ t) (f.on_mirror h)
      ∙ append_assoc (a.mirror ++ a.buffer) s t;
  same_console = g.same_console ∙ f.same_console;
  same_callback = g.same_callback ∙ f.same_callback;
  same_mirror = g.same_mirror ∙ f.same_mirror;
}

write_char-Grows : (c : ℕ) (b : StreamBuf) → Grows (c ∷ []) b (write_char c b)
unfolding write_char flush_line
write_char-Grows c b = elim (Bool-cases (c == newline)) [
  | inl e ↦
      let at : c ≡ newline = ground (arith, e) in
      rw e (
        emit-Grows (b.buffer ++ newline ∷ []) (c ∷ []) b
          (record b {
            buffer = [];
            history =
                if b.buffer_enabled
                then push_history b.max_history b.buffer b.history
                else b.history;
          })
          (ap (λ n. b.buffer ++ n ∷ []) at) refl)
  | inr e ↦ rw e (buffered c b)
]

write_chars-Grows : (s : String) (b : StreamBuf) → Grows s b (write_chars s b)
unfolding write_chars
write_chars-Grows [] b = unchanged b
write_chars-Grows (c ∷ cs) b =
    Grows-both (c ∷ []) cs b (write_char c b) (write_chars cs (write_char c b))
      (write_char-Grows c b) (write_chars-Grows cs (write_char c b))

flush_buf-Grows : (b : StreamBuf) → Grows [] b (flush_buf b)
unfolding flush_buf flush_partial
flush_buf-Grows b = elim (Bool-cases (is_empty b.buffer)) [
  | inl e ↦ rw (ap not e) (unchanged b)
  | inr e ↦
      rw (ap not e) (emit-Grows b.buffer [] b (record b { buffer = [] }) (append-nil b.buffer) refl)
]

perform-Grows : (o : Output) (b : StreamBuf) → Grows (text_of o) b (perform o b)
unfolding perform text_of
perform-Grows (write_one c) b = write_char-Grows c b
perform-Grows (write_many s) b =
    subst (λ (t : StreamBuf). Grows s b t) (sym (write_text-write_chars s b))
      (write_chars-Grows s b)
perform-Grows flush_now b = flush_buf-Grows b

perform_all-Grows : (os : List Output) (b : StreamBuf) → Grows (written os) b (perform_all os b)
unfolding perform_all written
perform_all-Grows [] b = unchanged b
perform_all-Grows (o ∷ os) b =
    Grows-both (text_of o) (written os) b (perform o b) (perform_all os (perform o b))
      (perform-Grows o b) (perform_all-Grows os (perform o b))

pub data Sink : Type 0 where
  to_console to_callback to_mirror : Sink

unfoldable pub is_on : Sink → StreamBuf → Bool
is_on to_console b = b.direct_console
is_on to_callback b = b.has_callback
is_on to_mirror b = b.mirrored

-- All that an output has been given.
unfoldable pub given : Sink → StreamBuf → String
given to_console b = b.console
given to_callback b = join b.called
given to_mirror b = b.mirror

-- After any sequence of writes and flushes, what an output that is on has been given, with the buffer
-- behind it, is what it had been given before, the old buffer and all that was written, in order:
-- nothing is lost, doubled or reordered, for each of the console, the callback and the mirror.
pub perform_all-written :
    (sink : Sink) (os : List Output) (b : StreamBuf)
    → is_on sink b ≡ true
    → given sink (perform_all os b) ++ (perform_all os b).buffer
      ≡ (given sink b ++ b.buffer) ++ written os
unfolding is_on given
perform_all-written to_console os b h = (perform_all-Grows os b).on_console h
perform_all-written to_callback os b h = (perform_all-Grows os b).on_callback h
perform_all-written to_mirror os b h = (perform_all-Grows os b).on_mirror h
