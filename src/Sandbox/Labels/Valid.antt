-- ===== src/Sandbox/Labels/Valid.antt =====
-- internal/sandbox/networkpolicy.go: what the cluster takes as a label.
use Prim.Native.Char.{Char, code}
use Prim.Native.String.{[] as empty, ◌∷◌ as push}
use shclop.Prelude.{
  ◌≡◌, refl, inl, inr, ℕ, zero, suc, ◌≤◌, String, Bool, true, false, ◌&&◌, ◌||◌, ◌==◌, eqb, ltb,
  arith, Bool-cases,
}
use shclop.Prelude.Text.{trim_space, is_white}
use shclop.Sandbox.Labels.{
  is_mark, is_label_char, dashed, skip_marks, cut_marks, first_chars, char_count, limited,
  label_value,
}

-- Every character is one of a label's.
abbrev pub IsLabel : String → Type 0
IsLabel empty = Unit
IsLabel (push ch rest) = (is_label_char (code ch) ≡ true) × IsLabel rest

dashed-IsLabel : (s : String) (last_dash : Bool) → IsLabel (dashed s last_dash)
unfolding dashed
dashed-IsLabel empty last_dash = tt
dashed-IsLabel (push ch rest) last_dash = elim (Bool-cases (is_label_char (code ch))) [
  | inl fits ↦ rw fits (fits, dashed-IsLabel rest (eqb (code ch) 45))
  | inr other ↦ elim (Bool-cases last_dash) [
    | inl again ↦ rw (other, again) (dashed-IsLabel rest true)
    | inr first ↦ rw (other, first) (refl, dashed-IsLabel rest true)
  ]
]

skip_marks-IsLabel : (s : String) → IsLabel s → IsLabel (skip_marks s)
unfolding skip_marks
skip_marks-IsLabel empty h = tt
skip_marks-IsLabel (push ch rest) h = elim (Bool-cases (is_mark (code ch))) [
  | inl mark ↦ rw mark (skip_marks-IsLabel rest h.1)
  | inr other ↦ rw other h
]

abbrev is_cut : Char → String → Bool
is_cut ch rest = cut_marks rest == "" && (is_mark (code ch) || is_white (code ch))

cut_marks-IsLabel : (s : String) → IsLabel s → IsLabel (cut_marks s)
unfolding cut_marks
cut_marks-IsLabel empty h = tt
cut_marks-IsLabel (push ch rest) h = elim (Bool-cases (is_cut ch rest)) [
  | inl goes ↦ rw goes tt
  | inr stays ↦ rw stays (h.0, cut_marks-IsLabel rest h.1)
]

first_chars-IsLabel : (n : ℕ) (s : String) → IsLabel s → IsLabel (first_chars n s)
unfolding first_chars
first_chars-IsLabel zero s h = tt
first_chars-IsLabel (suc n) empty h = tt
first_chars-IsLabel (suc n) (push ch rest) h = (h.0, first_chars-IsLabel n rest h.1)

char_count-first_chars : (n : ℕ) (s : String) → char_count (first_chars n s) ≤ n
unfolding first_chars char_count
char_count-first_chars zero s = omega arith
char_count-first_chars (suc n) empty = omega arith
char_count-first_chars (suc n) (push ch rest) = omega (arith, char_count-first_chars n rest)

char_count-cut_marks : (s : String) → char_count (cut_marks s) ≤ char_count s
unfolding cut_marks char_count
char_count-cut_marks empty = omega arith
char_count-cut_marks (push ch rest) = elim (Bool-cases (is_cut ch rest)) [
  | inl goes ↦ rw goes (omega arith)
  | inr stays ↦ rw stays (omega (arith, char_count-cut_marks rest))
]

limited_sound : (s : String) → IsLabel s → (char_count (limited s) ≤ 63) × IsLabel (limited s)
limited_sound s h = elim (Bool-cases (ltb 63 (char_count s))) [
  | inr short ↦ (ground (arith, short), rw short h)
  | inl long ↦ (
    ground (arith, long, char_count-cut_marks (first_chars 63 s), char_count-first_chars 63 s),
    rw long (cut_marks-IsLabel (first_chars 63 s) (first_chars-IsLabel 63 s h)),
  )
]

-- The value of a label has at most 63 characters, all of them small letters, digits, dashes and dots, whatever text it
-- is made from and whatever its small letters are taken to be.
pub label_value-IsLabel :
    (to_lower : String → String) (value : String)
    → (char_count (label_value to_lower value) ≤ 63) × IsLabel (label_value to_lower value)
unfolding label_value
label_value-IsLabel to_lower value =
    limited_sound (cut_marks (skip_marks (dashed (trim_space (to_lower value)) false))) (
      cut_marks-IsLabel (skip_marks (dashed (trim_space (to_lower value)) false)) (
        skip_marks-IsLabel (dashed (trim_space (to_lower value)) false)
          (dashed-IsLabel (trim_space (to_lower value)) false)))
