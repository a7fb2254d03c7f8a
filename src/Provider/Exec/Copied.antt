-- ===== src/Provider/Exec/Copied.antt =====
-- What the turns of a session copy, in whichever order they are taken.
use azure_aci.Prelude.{
  ℕ, zero, suc, ◌<◌, ◌≡◌, refl, sym, ap, ◌∙◌, Bool, true, false, none, some, List, [], ◌∷◌, ◌++◌,
  take, length, if◌then◌else◌, arith, if-both, if-each, Option-cases, inl, inr,
}
use mathlib.Core.List.{append_assoc, append-nil}
use azure_aci.Provider.Exec.{
  Bytes, Input, Frame, Session, send_input, read_input, input_turn, copy_frame, Turn, cancel, input,
  output, take_turn, take_turns,
}

-- The part of a session that the loop for the output works on.
pub record Output : Type 0 where
  pub frames : List Frame
  pub copying : Bool
  pub written : Bytes

abbrev pub output_of : Session → Output
output_of s = record { frames = s.frames; copying = s.copying; written = s.written }

abbrev copy_once : List Frame → Output → Output
copy_once [] o = record o { copying = false }
copy_once (frame ∷ rest) o = elim frame.cut [
  | none ↦ record o { frames = rest; written = o.written ++ frame.bytes }
  | some n ↦ record o { frames = rest; written = o.written ++ take n frame.bytes; copying = false }
]

-- `n` iterations of that loop on its own.
unfoldable pub copied : ℕ → Output → Output
copied zero o = o
copied (suc n) o = copied n (if o.copying then copy_once o.frames o else o)

-- The iterations among the turns.
abbrev pub outputs : List Turn → ℕ
outputs [] = 0
outputs (cancel ∷ turns) = outputs turns
outputs (input ∷ turns) = outputs turns
outputs (output ∷ turns) = suc (outputs turns)

-- The bytes that arrive: all messages, up to the one whose copy fails.
abbrev pub delivered : List Frame → Bytes
delivered [] = []
delivered (frame ∷ rest) = elim frame.cut [
  | none ↦ frame.bytes ++ delivered rest
  | some n ↦ take n frame.bytes
]

send_input-output :
    (answer : Input) (bytes : Bytes) (s : Session)
    → output_of (send_input answer bytes s) ≡ output_of s
send_input-output answer [] s = refl
send_input-output answer (b ∷ bytes) s = if-both output_of answer.accepted refl refl

read_input-output :
    (answers : List Input) (s : Session) → output_of (read_input answers s) ≡ output_of s
unfolding read_input
read_input-output [] s = refl
read_input-output (answer ∷ rest) s =
    if-both output_of answer.failed refl
      (send_input-output answer answer.bytes (record s { inputs = rest }))

input-output : (s : Session) → output_of (take_turn input s) ≡ output_of s
unfolding take_turn input_turn
input-output s =
    if-both output_of s.reading (if-both output_of s.is_done refl (read_input-output s.inputs s))
      refl

copy_frame-output :
    (frames : List Frame) (s : Session)
    → output_of (copy_frame frames s) ≡ copy_once frames (output_of s)
unfolding copy_frame
copy_frame-output [] s = refl
copy_frame-output (frame ∷ rest) s = elim (Option-cases frame.cut) [
  | inl whole ↦ rw whole refl
  | inr (n, cut) ↦ rw cut refl
]

output-output :
    (s : Session)
    → output_of (take_turn output s)
      ≡ (if s.copying then copy_once s.frames (output_of s) else output_of s)
unfolding take_turn
output-output s = if-each output_of s.copying (copy_frame-output s.frames s) refl

-- The output depends on the number of iterations of its loop only: neither the end of the context nor
-- the copying of the input makes a difference, whenever they happen.
pub take_turns-copied :
    (turns : List Turn) (s : Session)
    → output_of (take_turns turns s) ≡ copied (outputs turns) (output_of s)
unfolding take_turns copied
take_turns-copied [] s = refl
take_turns-copied (cancel ∷ turns) s = take_turns-copied turns (take_turn cancel s)
take_turns-copied (input ∷ turns) s =
    take_turns-copied turns (take_turn input s) ∙ ap (copied (outputs turns)) (input-output s)
take_turns-copied (output ∷ turns) s =
    take_turns-copied turns (take_turn output s) ∙ ap (copied (outputs turns)) (output-output s)

copied-ended :
    (n : ℕ) (frames : List Frame) (written : Bytes)
    → copied n (record { frames = frames; copying = false; written = written })
      ≡ record { frames = frames; copying = false; written = written }
unfolding copied
copied-ended zero frames written = refl
copied-ended (suc n) frames written = copied-ended n frames written

-- As many iterations as there are messages, and one more, deliver what arrives and end the loop.
copied-delivered :
    (n : ℕ) (frames : List Frame) (written : Bytes)
    → length frames < n
    → ((copied n (record { frames = frames; copying = true; written = written })).written
        ≡ written ++ delivered frames)
      × ((copied n (record { frames = frames; copying = true; written = written })).copying ≡ false)
unfolding copied
copied-delivered zero frames written enough = ground (arith, enough)
copied-delivered (suc n) [] written enough = (
  ap (λ o. o.written) (copied-ended n [] written) ∙ sym (append-nil written),
  ap (λ o. o.copying) (copied-ended n [] written),
)
copied-delivered (suc n) (frame ∷ rest) written enough = elim (Option-cases frame.cut) [
  | inl whole ↦
      let (all, ended) = copied-delivered n rest (written ++ frame.bytes) (omega (arith, enough)) in
      rw whole (all ∙ append_assoc written frame.bytes (delivered rest), ended)
  | inr (k, cut) ↦ rw cut (
    ap (λ o. o.written) (copied-ended n rest (written ++ take k frame.bytes)),
    ap (λ o. o.copying) (copied-ended n rest (written ++ take k frame.bytes)),
  )
]

module _ (turns : List Turn) (s : Session) where
  -- However the turns are ordered, once the loop for the output has had one turn more than there are
  -- messages, it has ended, and the output has received, in order, what the messages hold.
  pub take_turns-delivered :
      s.copying ≡ true
      → length s.frames < outputs turns
      → ((take_turns turns s).written ≡ s.written ++ delivered s.frames)
        × ((take_turns turns s).copying ≡ false)
  take_turns-delivered on enough =
      let (all, ended) = copied-delivered (outputs turns) s.frames s.written enough in
      (ap (λ o. o.written) same ∙ all, ap (λ o. o.copying) same ∙ ended)
    where
      same :
          output_of (take_turns turns s)
          ≡ copied
              (outputs turns)
              (record { frames = s.frames; copying = true; written = s.written })
      same =
          take_turns-copied turns s
          ∙ ap
              (λ b.
                copied (outputs turns)
                  (record { frames = s.frames; copying = b; written = s.written }))
              on
