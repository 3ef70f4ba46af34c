-- ===== src/Firewall/Chain.antt =====
-- Rules and chains with their teardown policy, and how they are put into the tables and taken
-- out again: `src/firewall/varktables/types.rs`, up to `create_network_chains`.
pub mod Again
pub mod Made
pub mod Setup
pub mod Teardown
use netavark.Prelude.{
  ℕ, String, Bool, true, false, not, Option, none, some, List, [], ◌∷◌, ◌++◌, length, leb,
  if◌then◌else◌,
}
use netavark.Error.{message}
use netavark.Action.{Action, pure, ◌>>=◌, ◌>>◌, ask, change, for_each}
use netavark.Firewall.Tables.{Iptables, Place, Conn}
use netavark.Firewall.Helpers.{append_unique, add_chain_unique, remove_if_rule_exists}

pub data TeardownPolicy : Type 0 where
  on_complete never : TeardownPolicy

-- The positions are `i32` in the source, and the ones given are 1 and 2.
pub record VarkRule : Type 0 where
  pub rule : String
  pub td_policy : Option TeardownPolicy
  pub position : Option ℕ

-- `VarkRule::new`
abbrev pub new_rule : String → Option TeardownPolicy → VarkRule
new_rule rule policy = record { rule = rule; td_policy = policy; position = none }

-- The fields `driver`, `table` and `chain_name` are the place.
pub record VarkChain : Type 0 where
  pub place : Place
  pub create : Bool
  pub rules : List VarkRule
  pub td_policy : Option TeardownPolicy

-- `VarkChain::new`
abbrev pub new_chain : Conn → String → String → Option TeardownPolicy → VarkChain
new_chain driver table chain_name td_policy = record {
  place = record { driver = driver; table = table; chain = chain_name };
  create = false;
  rules = [];
  td_policy = td_policy;
}

abbrev pub build_rule : VarkChain → VarkRule → VarkChain
build_rule c rule = record c { rules = c.rules ++ (rule ∷ []) }

abbrev pub is_on_complete : Option TeardownPolicy → Bool
is_on_complete (some on_complete) = true
is_on_complete _ = false

-- Whether `remove_rules` skips a rule.
abbrev pub skips : Bool → Option TeardownPolicy → Bool
skips complete_teardown none = false
skips complete_teardown (some never) = true
skips complete_teardown (some on_complete) = not complete_teardown

module _ (T : Iptables) where
  -- One round of the loop of `add_rules`.
  unfoldable pub add_rule : Place → VarkRule → Action T.State Unit
  add_rule p r = elim r.position [
    | none ↦ append_unique T p r.rule
    | some pos ↦ do
      exists ← ask message (T.exists p r.rule)
      if exists then pure tt else change message (T.insert p r.rule pos)
  ]

  unfoldable pub add_rules : VarkChain → Action T.State Unit
  add_rules c = for_each (add_rule c.place) c.rules

  -- One round of the loop of `remove_rules`.
  unfoldable pub remove_rule : Bool → Place → VarkRule → Action T.State Unit
  remove_rule complete_teardown p r =
      if skips complete_teardown r.td_policy then pure tt else remove_if_rule_exists T p r.rule

  unfoldable pub remove_rules : Bool → VarkChain → Action T.State Unit
  remove_rules complete_teardown c = for_each (remove_rule complete_teardown c.place) c.rules

  -- The chain goes only if `list` shows no line but the chain's own.
  unfoldable pub remove : VarkChain → Action T.State Unit
  remove c = do
    remaining_rules ← ask message (T.list c.place)
    if leb (length remaining_rules) 1 then change message (T.delete_chain c.place) else pure tt

  unfoldable pub create_chain : VarkChain → Action T.State Unit
  create_chain c = if c.create then add_chain_unique T c.place else pure tt

  -- All chains are made first, since a rule may name another chain.
  unfoldable pub create_network_chains : List VarkChain → Action T.State Unit
  create_network_chains chains = for_each create_chain chains >> for_each add_rules chains
