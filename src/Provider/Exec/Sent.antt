-- ===== src/Provider/Exec/Sent.antt =====
-- What the goroutine for the input sends to the container, in whichever order the turns are taken.
use azure_aci.Prelude.{
  ◌≡◌, refl, sym, ap, ◌∙◌, inl, inr, Bool, true, false, List, [], ◌∷◌, ◌++◌, if◌then◌else◌, subst,
  Option-cases,
}
use mathlib.Core.List.{append_assoc, append-nil}
use azure_aci.Provider.Exec.{
  Bytes, Input, Frame, Session, send_input, read_input, input_turn, copy_frame, Turn, cancel, input,
  output, take_turn, take_turns,
}

abbrev pub all_bytes : List Bytes → Bytes
all_bytes [] = []
all_bytes (bytes ∷ messages) = bytes ++ all_bytes messages

-- What the reads put into the buffer.
abbrev pub input_bytes : List Input → Bytes
input_bytes [] = []
input_bytes (answer ∷ answers) = answer.bytes ++ input_bytes answers

-- Of the bytes `all`, those that were sent are the first ones, and as long as the goroutine runs, the
-- others are still to be read.
pub data IsInOrder (all : Bytes) (s : Session) : Type 0 where
  is_reading : all_bytes s.sent ++ input_bytes s.inputs ≡ all → IsInOrder all s
  has_stopped :
      (rest : Bytes) → s.reading ≡ false → all_bytes s.sent ++ rest ≡ all → IsInOrder all s

all_bytes-append :
    (messages : List Bytes) (bytes : Bytes)
    → all_bytes (messages ++ bytes ∷ []) ≡ all_bytes messages ++ bytes
all_bytes-append [] bytes = append-nil bytes
all_bytes-append (m ∷ messages) bytes =
    ap (λ v. m ++ v) (all_bytes-append messages bytes)
    ∙ sym (append_assoc m (all_bytes messages) bytes)

if-off : {A : Type 0} (b : Bool) (x y : A) → b ≡ false → (if b then x else y) ≡ y
if-off b x y off = rw off refl

module _ {all : Bytes} where
  IsInOrder-if :
      (b : Bool) {x y : Session}
      → IsInOrder all x
      → IsInOrder all y
      → IsInOrder all (if b then x else y)
  IsInOrder-if true p q = p
  IsInOrder-if false p q = q

  send_input-IsInOrder :
      (answer : Input) (bytes : Bytes) (s : Session)
      → all_bytes s.sent ++ (bytes ++ input_bytes s.inputs) ≡ all
      → IsInOrder all (send_input answer bytes s)
  send_input-IsInOrder answer [] s h = is_reading h
  send_input-IsInOrder answer (b ∷ bytes) s h =
      IsInOrder-if answer.accepted
        (is_reading (
          ap (λ v. v ++ input_bytes s.inputs) (all_bytes-append s.sent (b ∷ bytes))
          ∙ append_assoc (all_bytes s.sent) (b ∷ bytes) (input_bytes s.inputs)
          ∙ h))
        (has_stopped ((b ∷ bytes) ++ input_bytes s.inputs) refl h)

  read_input-IsInOrder :
      (answers : List Input) (s : Session)
      → all_bytes s.sent ++ input_bytes answers ≡ all
      → IsInOrder all (read_input answers s)
  unfolding read_input
  read_input-IsInOrder [] s h = has_stopped [] refl h
  read_input-IsInOrder (answer ∷ rest) s h =
      IsInOrder-if answer.failed (has_stopped (answer.bytes ++ input_bytes rest) refl h)
        (send_input-IsInOrder answer answer.bytes (record s { inputs = rest }) h)

  input-IsInOrder : (s : Session) → IsInOrder all s → IsInOrder all (take_turn input s)
  unfolding take_turn input_turn
  input-IsInOrder s (has_stopped rest off h) =
      subst (IsInOrder all) (sym (if-off s.reading _ _ off)) (has_stopped rest off h)
  input-IsInOrder s (is_reading h) =
      IsInOrder-if s.reading
        (IsInOrder-if s.is_done (has_stopped (input_bytes s.inputs) refl h)
          (read_input-IsInOrder s.inputs s h))
        (is_reading h)

  IsInOrder-kept :
      (s t : Session)
      → t.sent ≡ s.sent
      → t.inputs ≡ s.inputs
      → t.reading ≡ s.reading
      → IsInOrder all s
      → IsInOrder all t
  IsInOrder-kept s t sent inputs reading (is_reading h) = is_reading (rw (sent, inputs) h)
  IsInOrder-kept s t sent inputs reading (has_stopped rest off h) =
      has_stopped rest (reading ∙ off) (rw sent h)

  copy_frame-IsInOrder :
      (frames : List Frame) (s : Session) → IsInOrder all s → IsInOrder all (copy_frame frames s)
  unfolding copy_frame
  copy_frame-IsInOrder [] s h = IsInOrder-kept s _ refl refl refl h
  copy_frame-IsInOrder (frame ∷ rest) s h = elim (Option-cases frame.cut) [
    | inl whole ↦ rw whole (IsInOrder-kept s _ refl refl refl h)
    | inr (n, cut) ↦ rw cut (IsInOrder-kept s _ refl refl refl h)
  ]

  take_turn-IsInOrder :
      (turn : Turn) (s : Session) → IsInOrder all s → IsInOrder all (take_turn turn s)
  unfolding take_turn
  take_turn-IsInOrder cancel s h = IsInOrder-kept s _ refl refl refl h
  take_turn-IsInOrder input s h = input-IsInOrder s h
  take_turn-IsInOrder output s h = IsInOrder-if s.copying (copy_frame-IsInOrder s.frames s h) h

  take_turns-kept :
      (turns : List Turn) (s : Session) → IsInOrder all s → IsInOrder all (take_turns turns s)
  unfolding take_turns
  take_turns-kept [] s h = h
  take_turns-kept (turn ∷ turns) s h =
      take_turns-kept turns (take_turn turn s) (take_turn-IsInOrder turn s h)

-- However the turns are ordered, the messages that were sent hold the first bytes of the input, in
-- order and none twice; while the goroutine runs, all the others are still to be read.
pub take_turns-IsInOrder :
    (turns : List Turn) (s : Session)
    → IsInOrder (all_bytes s.sent ++ input_bytes s.inputs) (take_turns turns s)
take_turns-IsInOrder turns s = take_turns-kept turns s (is_reading refl)
