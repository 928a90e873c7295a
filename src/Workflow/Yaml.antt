-- ===== src/Workflow/Yaml.antt =====
-- `Value` of serde_yaml_ng, with the constructors that crates/gitzero-workflow/src/lib.rs matches
-- on.
use gitzero.Prelude.{Bool, Text, nat_key, text_key}

-- A mapping keeps its entries in order; `N` is the type of the numbers.
mutual
  pub data Value (N : Type 0) : Type 0 where
    null : Value N
    bool : Bool → Value N
    number : N → Value N
    string : Text → Value N
    sequence : Values N → Value N
    mapping : Entries N → Value N
    tagged : Text → Value N → Value N

  pub data Values (N : Type 0) : Type 0 where
    no_values : Values N
    value : Value N → Values N → Values N

  pub data Entries (N : Type 0) : Type 0 where
    no_entries : Entries N
    entry : Value N → Value N → Entries N → Entries N
