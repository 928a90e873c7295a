-- ===== src/Expression/Format.antt =====
-- `format_values` of crates/gitzero-expression/src/lib.rs.
use gitzero.Prelude.Strings.{before_colon, parse_usize}
use gitzero.Expression.{string, invalid_function, Evaluated, ExpressionError, Evaluation, Package}
use gitzero.Prelude.{
  append_assoc, append-nil, ◌%◌, ◌^◌, Bool-cases, List, Option, Text, [], arith, codes, false,
  get_elem?, if◌then◌else◌, inl, inr, nat_beq, nat_key, none, refl, some, text_key, true, ℕ, ◌&&◌,
  ◌++◌, ◌+◌, ◌||◌, ◌∙◌, ◌∷◌, ◌≡◌, ◌≢◌,
}
use gitzero.Prelude.Result.{ok, err, ◌>>=◌, ok_or}

-- In the release build `index + 1` wraps round at the machine word.
abbrev pub usize_mod : ℕ
usize_mod = 2 ^ 64

module _ {N : Type 0} (p : Package N) (arguments : List (Evaluation N)) where
  abbrev bad_format : ExpressionError
  bad_format = invalid_function (codes "format")

  -- The text that stands for the placeholder between two braces.
  unfoldable pub placeholder : Text → Evaluated Text
  unfolding parse_usize before_colon
  placeholder text = do
    index ← ok_or (parse_usize (before_colon text)) bad_format
    value ← ok_or (get_elem? arguments ((index + 1) % usize_mod)) bad_format
    ok (p.display value)

  -- The loop over the template: outside a placeholder, or inside one with what was read of it.
  unfoldable pub format_from : Option Text → Text → Evaluated Text
  unfolding placeholder
  format_from none [] = ok []
  format_from none (c ∷ []) =
      if nat_beq c b'{' || nat_beq c b'}' then err bad_format else ok (c ∷ [])
  format_from none (c ∷ d ∷ rest) =
      let after_pair = format_from none rest in
      let inside = format_from (some []) (d ∷ rest) in
      let after_one = format_from none (d ∷ rest) in
      if nat_beq c b'{' && nat_beq d b'{'
      then (do out ← after_pair; ok (b'{' ∷ out))
      else if nat_beq c b'}' && nat_beq d b'}'
      then (do out ← after_pair; ok (b'}' ∷ out))
      else if nat_beq c b'{'
      then inside
      else if nat_beq c b'}'
      then err bad_format
      else (do out ← after_one; ok (c ∷ out))
  format_from (some text) [] = err bad_format
  format_from (some text) (c ∷ rest) =
      let after = format_from none rest in
      let inside = format_from (some (text ++ c ∷ [])) rest in
      if nat_beq c b'}'
      then (do value ← placeholder text; out ← after; ok (value ++ out))
      else inside

unfoldable pub format_values :
    {N : Type 0} → Package N → List (Evaluation N) → Evaluated (Evaluation N)
unfolding format_from
format_values p [] = err (invalid_function (codes "format"))
format_values p (template ∷ rest) = do
  text ← format_from p (template ∷ rest) none (p.display template)
  ok (string text)

-- A text with its braces doubled.
unfoldable pub escape_braces : Text → Text
escape_braces [] = []
escape_braces (c ∷ s) =
    if nat_beq c b'{' || nat_beq c b'}' then c ∷ c ∷ escape_braces s else c ∷ escape_braces s

escape_braces-brace :
    (c : ℕ) (s : Text)
    → (nat_beq c b'{' || nat_beq c b'}') ≡ true
    → escape_braces (c ∷ s) ≡ c ∷ c ∷ escape_braces s
unfolding escape_braces
escape_braces-brace c s h = rw h

escape_braces-plain :
    (c : ℕ) (s : Text)
    → (nat_beq c b'{' || nat_beq c b'}') ≡ false
    → escape_braces (c ∷ s) ≡ c ∷ escape_braces s
unfolding escape_braces
escape_braces-plain c s h = rw h

-- No closing brace.
abbrev pub IsOpen : Text → Type 0
IsOpen [] = Unit {0}
IsOpen (c ∷ s) = (c ≢ b'}') × IsOpen s

module _ {N : Type 0} (p : Package N) (arguments : List (Evaluation N)) where
  format_from-plain :
      (c : ℕ) (s : Text)
      → c ≢ b'{'
      → c ≢ b'}'
      → format_from p arguments none (c ∷ s)
        ≡ (do out ← format_from p arguments none s; ok (c ∷ out))
  unfolding format_from
  format_from-plain c [] h k = ground arith
  format_from-plain c (d ∷ s) h k = ground arith

  format_from-more :
      (text : Text) (c : ℕ) (s : Text)
      → c ≢ b'}'
      → format_from p arguments (some text) (c ∷ s)
        ≡ format_from p arguments (some (text ++ c ∷ [])) s
  unfolding format_from
  format_from-more text c s h = ground arith

  format_from-open :
      (c : ℕ) (s : Text)
      → c ≢ b'{'
      → c ≢ b'}'
      → format_from p arguments none (b'{' ∷ c ∷ s) ≡ format_from p arguments (some []) (c ∷ s)
  unfolding format_from
  format_from-open c s h k = ground arith

  format_from-pair :
      (c : ℕ) (s : Text)
      → (nat_beq c b'{' || nat_beq c b'}') ≡ true
      → format_from p arguments none (c ∷ c ∷ s)
        ≡ (do out ← format_from p arguments none s; ok (c ∷ out))
  unfolding format_from
  format_from-pair c s h = ground arith

  format_from-escape_braces : (s : Text) → format_from p arguments none (escape_braces s) ≡ ok s
  format_from-escape_braces [] = unfold format_from escape_braces in refl
  format_from-escape_braces (c ∷ s) = elim (Bool-cases (nat_beq c b'{' || nat_beq c b'}')) [
    | inl brace ↦
        rw (escape_braces-brace c s brace, format_from-pair c (escape_braces s) brace)
          (rw (format_from-escape_braces s))
    | inr plain ↦
        rw
          (
            escape_braces-plain c s plain,
            format_from-plain c (escape_braces s) (ground arith) (ground arith),
          )
          (rw (format_from-escape_braces s))
  ]

  -- A placeholder that is being read ends at its closing brace.
  format_from-inside :
      (text more rest : Text)
      → IsOpen more
      → format_from p arguments (some text) (more ++ b'}' ∷ rest) ≡ (do
        value ← placeholder p arguments (text ++ more)
        out ← format_from p arguments none rest
        ok (value ++ out))
  format_from-inside text [] rest h = rw append-nil (unfold format_from in refl)
  format_from-inside text (c ∷ more) rest h =
      format_from-more text c (more ++ b'}' ∷ rest) h.0
      ∙ format_from-inside (text ++ c ∷ []) more rest h.1
      ∙ rw append_assoc

  -- A brace, a text that does not begin with one and has no closing one, and a closing brace are
  -- replaced by what the text stands for; the rest of the template is formatted alone.
  pub format_from-placeholder :
      (c : ℕ) (text rest : Text)
      → c ≢ b'{'
      → IsOpen (c ∷ text)
      → format_from p arguments none (b'{' ∷ c ∷ text ++ b'}' ∷ rest) ≡ (do
        value ← placeholder p arguments (c ∷ text)
        out ← format_from p arguments none rest
        ok (value ++ out))
  format_from-placeholder c text rest h closed =
      format_from-open c (text ++ b'}' ∷ rest) h closed.0
      ∙ format_from-inside [] (c ∷ text) rest closed

-- Formatting a text whose braces were doubled gives the text back, whatever the arguments.
pub format_values-escape_braces :
    {N : Type 0} (p : Package N) (template : Evaluation N) (arguments : List (Evaluation N))
    (s : Text)
    → p.display template ≡ escape_braces s
    → format_values p (template ∷ arguments) ≡ ok (string s)
unfolding format_values
format_values-escape_braces p template arguments s e =
    rw (e, format_from-escape_braces p (template ∷ arguments) s)
