-- ===== src/Sandbox/Labels.antt =====
-- internal/sandbox/networkpolicy.go: the labels of a runtime. `strings.ToLower` is an argument.
pub mod Valid
use Prim.Native.Char.{code}
use Prim.Native.String.{◌++◌ as append, [] as empty, ◌∷◌ as push}
use shclop.Prelude.{
  ℕ, zero, suc, String, Bool, true, false, ◌&&◌, ◌||◌, [], ◌∷◌, ◌==◌, eqb, ltb, leb, if◌then◌else◌,
}
use shclop.Prelude.Text.{trim_space, is_white}
use shclop.Prelude.Dict.{Dict, insert}

-- 45 is the dash and 46 the dot.
abbrev pub is_mark : ℕ → Bool
is_mark n = eqb n 45 || eqb n 46

abbrev pub is_label_char : ℕ → Bool
is_label_char n = leb 97 n && leb n 122 || leb 48 n && leb n 57 || is_mark n

-- The loop, given whether a dash was written last: every run of other characters becomes one dash.
unfoldable pub dashed : String → Bool → String
dashed empty last_dash = empty
dashed (push ch rest) last_dash =
    let later = dashed rest in
    if is_label_char (code ch)
    then push ch (later (eqb (code ch) 45))
    else if last_dash
    then later true
    else push "-" (later true)

unfoldable pub skip_marks : String → String
skip_marks empty = empty
skip_marks (push ch rest) =
    let later = skip_marks rest in if is_mark (code ch) then later else push ch rest

-- Without the marks and the white space at the end.
unfoldable pub cut_marks : String → String
unfolding is_white
cut_marks empty = empty
cut_marks (push ch rest) =
    let later = cut_marks rest in
    if later == "" && (is_mark (code ch) || is_white (code ch)) then "" else push ch later

unfoldable pub first_chars : ℕ → String → String
first_chars zero text = empty
first_chars (suc n) empty = empty
first_chars (suc n) (push ch rest) = push ch (first_chars n rest)

unfoldable pub char_count : String → ℕ
char_count empty = 0
char_count (push ch rest) = suc (char_count rest)

abbrev pub limited : String → String
limited value = if ltb 63 (char_count value) then cut_marks (first_chars 63 value) else value

unfoldable pub label_value : (String → String) → String → String
unfolding dashed skip_marks cut_marks first_chars char_count
label_value to_lower value =
    let lower = trim_space (to_lower value) in limited (cut_marks (skip_marks (dashed lower false)))

abbrev pub with_label : String → String → Dict String → Dict String
with_label key value labels = if value == "" then labels else insert key value labels

unfoldable pub runtime_labels : (String → String) → String → String → String → Dict String
unfolding label_value
runtime_labels to_lower agent_id runtime sandbox_id =
    with_label "shclop.io/sandbox-id" (label_value to_lower sandbox_id) (
      with_label "shclop.io/runtime-flavor" (label_value to_lower runtime) (
        with_label "shclop.io/agent-id" (label_value to_lower agent_id) (
          ("app.kubernetes.io/name", "shclop-agent-runtime")
          ∷ ("app.kubernetes.io/component", "agent-runtime")
          ∷ [])))
