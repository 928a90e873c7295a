-- ===== src/Commands/RunSecrets.antt =====
-- `secret_values` of crates/gitzero-agent/src/executor.rs. The encoding in base64 is a parameter.
use gitzero.Commands.Relay.{relay_masked_events}
use gitzero.Commands.Relayed.{relay_masked_events-hides, relay_masked_events-hides, sent_texts}
use gitzero.Commands.Texts.{hides}
use gitzero.Commands.Secrets.{is_hideable}
use gitzero.Prelude.Result.{Result}
use gitzero.Commands.Bounded.{
  with_global_masks-IsProcessor, sort_global-none_empty, dedup-none_empty,
}
use gitzero.Matcher.Patterns.{ProblemMatcherConfig, MatcherError, Regexes}
use gitzero.Prelude.Split.{is_empty}
use gitzero.Prelude.Map.{Map}
use gitzero.Commands.MaskLists.{has_mask, none_empty}
use gitzero.Commands.State.{with_global_masks, drop_repeated, dedup, insert_global, sort_global}
use gitzero.Protocol.{AgentMessage, RunSpec}
use gitzero.Prelude.Strings.{contains_text}
use gitzero.Prelude.Utf8.{byte_len}
use gitzero.Prelude.{
  any-append, ==_iff, Bool, Bool-cases, List, Option, Text, [], any, ap, arith, codes, false,
  if◌then◌else◌, inl, inr, leb, map, nat_key, refl, text_key, true, ℕ, ◌&&◌, ◌++◌, ◌-◌, ◌==◌, ◌||◌,
  ◌∙◌, ◌∷◌, ◌≡◌,
}

-- str::to_ascii_uppercase
abbrev pub ascii_upper : ℕ → ℕ
ascii_upper c = if leb b'a' c && leb c b'z' then c - 32 else c

abbrev pub markers : List Text
markers =
    codes "TOKEN" ∷ codes "SECRET" ∷ codes "PASSWORD" ∷ codes "PRIVATE_KEY" ∷ codes "API_KEY" ∷ []

abbrev pub is_sensitive : Text → Text → Bool
is_sensitive name value =
    leb 8 (byte_len value) && any (contains_text (map ascii_upper name)) markers

abbrev pub token_values : (Text → Text) → Text → List Text
token_values encode_base64 [] = []
token_values encode_base64 (c ∷ token) =
    let credential = encode_base64 (codes "x-access-token:" ++ c ∷ token) in
    (c ∷ token) ∷ credential ∷ (codes "AUTHORIZATION: basic " ++ credential) ∷ []

unfoldable pub environment_values : Map Text Text → List Text
unfolding contains_text
environment_values [] = []
environment_values ((name, value) ∷ environment) =
    let rest = environment_values environment in
    if is_sensitive name value then value ∷ rest else rest

abbrev pub found_values : (Text → Text) → RunSpec → List Text
found_values encode_base64 run =
    token_values encode_base64 run.checkout_token ++ environment_values run.environment

unfoldable pub secret_values : (Text → Text) → RunSpec → List Text
unfolding environment_values sort_global dedup
secret_values encode_base64 run = dedup (sort_global (found_values encode_base64 run))

-- The secrets that a run starts with: its own, and the token of its runtime.
abbrev pub run_secrets : (Text → Text) → RunSpec → Text → List Text
run_secrets encode_base64 run runtime_token = secret_values encode_base64 run ++ runtime_token ∷ []

has_mask-insert_global :
    (secret x : Text) (masks : List Text)
    → has_mask secret (insert_global x masks) ≡ (x == secret || has_mask secret masks)
unfolding insert_global
has_mask-insert_global secret x [] = refl
has_mask-insert_global secret x (y ∷ masks) = ground (arith, has_mask-insert_global secret x masks)

has_mask-sort_global :
    (secret : Text) (masks : List Text)
    → has_mask secret (sort_global masks) ≡ has_mask secret masks
unfolding sort_global
has_mask-sort_global secret [] = refl
has_mask-sort_global secret (x ∷ masks) =
    rw (has_mask-insert_global secret x (sort_global masks), has_mask-sort_global secret masks) refl

has_mask-drop_repeated :
    (secret x : Text) (masks : List Text)
    → has_mask secret (drop_repeated x masks) ≡ (x == secret || has_mask secret masks)
has_mask-drop_repeated secret x [] = refl
has_mask-drop_repeated secret x (y ∷ masks) =
    ground (arith, ==_iff x y, ==_iff x secret, ==_iff y secret)

has_mask-dedup :
    (secret : Text) (masks : List Text) → has_mask secret (dedup masks) ≡ has_mask secret masks
unfolding dedup
has_mask-dedup secret [] = refl
has_mask-dedup secret (x ∷ masks) =
    has_mask-drop_repeated secret x (dedup masks)
    ∙ ap (λ b. x == secret || b) (has_mask-dedup secret masks)

environment_values-none_empty :
    (environment : Map Text Text) → none_empty (environment_values environment) ≡ true
unfolding environment_values
environment_values-none_empty [] = refl
environment_values-none_empty ((name, []) ∷ environment) = environment_values-none_empty environment
environment_values-none_empty ((name, c ∷ value) ∷ environment) =
    elim (Bool-cases (is_sensitive name (c ∷ value))) [
      | inl kept ↦ rw kept (environment_values-none_empty environment)
      | inr left ↦ rw left (environment_values-none_empty environment)
    ]

none_empty-append :
    (masks more : List Text)
    → none_empty masks ≡ true
    → none_empty more ≡ true
    → none_empty (masks ++ more) ≡ true
none_empty-append [] more h k = k
none_empty-append (mask ∷ masks) more h k = ground (arith, h, k, none_empty-append masks more)

token_values-none_empty :
    (encode_base64 : Text → Text) (token : Text)
    → ((text : Text) → is_empty text ≡ false → is_empty (encode_base64 text) ≡ false)
    → none_empty (token_values encode_base64 token) ≡ true
token_values-none_empty encode_base64 [] full = refl
token_values-none_empty encode_base64 (c ∷ token) full =
    ground (arith, full (codes "x-access-token:" ++ c ∷ token) refl)

pub run_secrets-none_empty :
    (encode_base64 : Text → Text) (run : RunSpec) (runtime_token : Text)
    → ((text : Text) → is_empty text ≡ false → is_empty (encode_base64 text) ≡ false)
    → is_empty runtime_token ≡ false
    → none_empty (run_secrets encode_base64 run runtime_token) ≡ true
unfolding secret_values
run_secrets-none_empty encode_base64 run runtime_token full there =
    none_empty-append (secret_values encode_base64 run) (runtime_token ∷ [])
      (dedup-none_empty (sort_global values) (
        sort_global-none_empty values
        ∙ none_empty-append (token_values encode_base64 run.checkout_token) _
            (token_values-none_empty encode_base64 run.checkout_token full)
            (environment_values-none_empty run.environment)))
      (ground (arith, there))
  where
    values : List Text
    values = found_values encode_base64 run

-- A value that is found is among the secrets.
pub run_secrets-has_mask :
    (encode_base64 : Text → Text) (run : RunSpec) (runtime_token secret : Text)
    → has_mask secret (found_values encode_base64 run) ≡ true
    → has_mask secret (run_secrets encode_base64 run runtime_token) ≡ true
unfolding secret_values
run_secrets-has_mask encode_base64 run runtime_token secret found =
    any-append (λ m. m == secret) (secret_values encode_base64 run) (runtime_token ∷ [])
    ∙ ap (λ b. b || has_mask secret (runtime_token ∷ []))
        (has_mask-dedup secret (sort_global values) ∙ has_mask-sort_global secret values ∙ found)
  where
    values : List Text
    values = found_values encode_base64 run

module _ {Regex Captures : Type 0} (p : Regexes Regex Captures)
    (load : Text → Text → Text → Result MatcherError (List ProblemMatcherConfig))
    (matcher_path : Option Text → Option Text → Option Text → Option Text)
    (encode_base64 : Text → Text) where
  -- From the start of a run, none of the step names, logs, summaries, annotations and reasons that
  -- the relay sends shows the checkout token, a credential that is made of it, or a value of the
  -- environment that is taken for a secret, whatever the job writes: for one that is not empty, has
  -- no star and does not occur in `.github`, where base64 of a text that is not empty is not empty,
  -- and neither is the token of the runtime. Other texts of messages are not masked.
  pub relay_masked_events-hides_run :
      (run : RunSpec) (runtime_token secret folder root : Text) (messages : List AgentMessage)
      → ((text : Text) → is_empty text ≡ false → is_empty (encode_base64 text) ≡ false)
      → is_empty runtime_token ≡ false
      → has_mask secret (found_values encode_base64 run) ≡ true
      → is_hideable secret ≡ true
      → contains_text (codes ".github") secret ≡ false
      → hides secret (
          sent_texts p load matcher_path
            (relay_masked_events p load matcher_path
              (run_secrets encode_base64 run runtime_token)
              messages
              (with_global_masks (run_secrets encode_base64 run runtime_token) folder root)).1)
        ≡ true
  relay_masked_events-hides_run run runtime_token secret folder root messages encoded there found
        good path =
      let secrets = run_secrets encode_base64 run runtime_token in
      let full = run_secrets-none_empty encode_base64 run runtime_token encoded there in
      relay_masked_events-hides p load matcher_path secrets secret messages
        (with_global_masks secrets folder root)
        (with_global_masks-IsProcessor secrets folder root full) full good
        (run_secrets-has_mask encode_base64 run runtime_token secret found) path
