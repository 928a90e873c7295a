-- ===== src/Commands/Escape.antt =====
-- The escapes of `decode_workflow_command_data` (crates/gitzero-agent/src/executor.rs).
use gitzero.Commands.Syntax.{decode_workflow_command_data}
use gitzero.Prelude.Strings.{starts_with}
use gitzero.Prelude.Replace.{replace, replace_from-other, replace_from}
use gitzero.Prelude.{
  Bool-cases, Text, [], ap, arith, codes, false, if◌then◌else◌, inl, inr, nat_beq, nat_key, refl,
  subst, sym, text_key, ℕ, ◌++◌, ◌∙◌, ◌∷◌, ◌≡◌, ◌⊎◌,
}

-- How GitHub's toolkit writes a value into a command: the percent sign and the line breaks as
-- `%25`, `%0D` and `%0A`.
abbrev pub escape : ℕ → Text
escape c =
    if nat_beq c b'%'
    then codes "%25"
    else if nat_beq c b'\r'
    then codes "%0D"
    else if nat_beq c b'\n'
    then codes "%0A"
    else c ∷ []

abbrev pub encode : (ℕ → Text) → Text → Text
encode f [] = []
encode f (c ∷ s) = f c ++ encode f s

-- The escapes that are left once the carriage returns, and then the line feeds, are decoded.
abbrev escape_lines : ℕ → Text
escape_lines c =
    if nat_beq c b'%' then codes "%25" else if nat_beq c b'\n' then codes "%0A" else c ∷ []

abbrev escape_percent : ℕ → Text
escape_percent c = if nat_beq c b'%' then codes "%25" else c ∷ []

abbrev raw : ℕ → Text
raw c = c ∷ []

encode-raw : (s : Text) → encode raw s ≡ s
encode-raw [] = refl
encode-raw (c ∷ s) = ap (λ t. c ∷ t) (encode-raw s)

-- One replacement turns the pieces of one encoding into those of another.
Pieces : Text → Text → (ℕ → Text) → (ℕ → Text) → Type 0
Pieces from to f g =
    (c : ℕ) (t : Text) → replace_from 0 from to (f c ++ t) ≡ g c ++ replace_from 0 from to t

replace-encode :
    (from to : Text) (f g : ℕ → Text)
    → Pieces from to f g
    → (s : Text) → replace_from 0 from to (encode f s) ≡ encode g s
unfolding replace_from Pieces
replace-encode from to f g pieces [] = refl
replace-encode from to f g pieces (c ∷ s) =
    pieces c (encode f s) ∙ ap (λ t. g c ++ t) (replace-encode from to f g pieces s)

-- A character that does not start the pattern is kept.
replace_from-plain :
    (p c : ℕ) (from to t : Text)
    → nat_beq c p ≡ false
    → replace_from 0 (p ∷ from) to (c ∷ t) ≡ c ∷ replace_from 0 (p ∷ from) to t
unfolding starts_with
replace_from-plain p c from to t h = replace_from-other (p ∷ from) to t c (ground (arith, h))

abbrev IsPlainChar : ℕ → Type 0
IsPlainChar c = (nat_beq c b'%' ≡ false) × (nat_beq c b'\r' ≡ false) × (nat_beq c b'\n' ≡ false)

kind : (c : ℕ) → (c ≡ b'%') ⊎ (c ≡ b'\r') ⊎ (c ≡ b'\n') ⊎ IsPlainChar c
kind c = elim (Bool-cases (nat_beq c b'%')) [
  | inl percent ↦ inl (ground arith)
  | inr a ↦ elim (Bool-cases (nat_beq c b'\r')) [
    | inl return ↦ inr (inl (ground arith))
    | inr b ↦ elim (Bool-cases (nat_beq c b'\n')) [
      | inl feed ↦ inr (inr (inl (ground arith)))
      | inr d ↦ inr (inr (inr (a, b, d)))
    ]
  ]
]

module _ (from to : Text) (f g : ℕ → Text) where
  At : ℕ → Type 0
  At c =
      (t : Text)
      → replace_from 0 (b'%' ∷ from) to (f c ++ t) ≡ g c ++ replace_from 0 (b'%' ∷ from) to t

  Pieces-by_kind :
      At b'%'
      → At b'\r'
      → At b'\n'
      → ((c : ℕ) → IsPlainChar c → (f c ≡ c ∷ []) × (g c ≡ c ∷ []))
      → Pieces (b'%' ∷ from) to f g
  unfolding Pieces At
  Pieces-by_kind percent return feed plain c t = elim (kind c) [
    | inl e ↦ subst (λ c. At c) (sym e) percent t
    | inr (inl e) ↦ subst (λ c. At c) (sym e) return t
    | inr (inr (inl e)) ↦ subst (λ c. At c) (sym e) feed t
    | inr (inr (inr h)) ↦
        let (fc, gc) = plain c h in rw (fc, gc) (replace_from-plain b'%' c from to t h.0)
  ]

plain_escape : (c : ℕ) → IsPlainChar c → (escape c ≡ c ∷ []) × (escape_lines c ≡ c ∷ [])
plain_escape c h = (rw (h.0, h.1, h.2) refl, rw (h.0, h.2) refl)

plain_lines : (c : ℕ) → IsPlainChar c → (escape_lines c ≡ c ∷ []) × (escape_percent c ≡ c ∷ [])
plain_lines c h = (rw (h.0, h.2) refl, rw h.0 refl)

-- Reading a value that the toolkit wrote gives the value back, whatever it is.
pub decode_workflow_command_data-encode :
    (s : Text) → decode_workflow_command_data (encode escape s) ≡ s
unfolding decode_workflow_command_data replace replace_from starts_with At
decode_workflow_command_data-encode s =
    let percent = codes "%" in
    let return = codes "\r" in
    let feed = codes "\n" in
    ap
      (λ t.
        replace (codes "%25") percent (
          replace (codes "%0a") feed (replace (codes "%0A") feed (replace (codes "%0d") return t))))
      (replace-encode (codes "%0D") return escape escape_lines
        (Pieces-by_kind (codes "0D") return escape escape_lines (λ t. refl) (λ t. refl) (λ t. refl)
          plain_escape)
        s)
    ∙ ap
        (λ t.
          replace (codes "%25") percent (replace (codes "%0a") feed (replace (codes "%0A") feed t)))
        (replace-encode (codes "%0d") return escape_lines escape_lines
          (Pieces-by_kind (codes "0d") return escape_lines escape_lines (λ t. refl) (λ t. refl)
            (λ t. refl) (λ c h. ((plain_escape c h).1, (plain_escape c h).1)))
          s)
    ∙ ap (λ t. replace (codes "%25") percent (replace (codes "%0a") feed t))
        (replace-encode (codes "%0A") feed escape_lines escape_percent
          (Pieces-by_kind (codes "0A") feed escape_lines escape_percent (λ t. refl) (λ t. refl)
            (λ t. refl) plain_lines)
          s)
    ∙ ap (replace (codes "%25") percent) (
        replace-encode (codes "%0a") feed escape_percent escape_percent
          (Pieces-by_kind (codes "0a") feed escape_percent escape_percent (λ t. refl) (λ t. refl)
            (λ t. refl) (λ c h. ((plain_lines c h).1, (plain_lines c h).1)))
          s)
    ∙ replace-encode (codes "%25") percent escape_percent raw
        (Pieces-by_kind (codes "25") percent escape_percent raw (λ t. refl) (λ t. refl) (λ t. refl)
          (λ c h. ((plain_lines c h).1, refl)))
        s
    ∙ encode-raw s
