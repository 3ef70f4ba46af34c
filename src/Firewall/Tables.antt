-- ===== src/Firewall/Tables.antt =====
-- The `iptables` crate, which runs the `iptables` and `ip6tables` commands: the operations that
-- the program calls, over an unknown state of the kernel's tables, and what it relies on.
pub mod Counts
pub mod Memory
use netavark.Prelude.{
  ℕ, suc, ◌-◌, String, ◌≡◌, Bool, true, false, ◌&&◌, List, [], ◌∷◌, ◌++◌, Result, ok, is_ok, length,
  take, drop, contains, str_eq, if◌then◌else◌,
}

-- The two connections of `IptablesDriver`: `iptables::new(false)` and `iptables::new(true)`.
pub data Conn : Type 0 where
  conn conn6 : Conn

-- A chain of a table, as a command names it.
pub record Place : Type 0 where
  pub driver : Conn
  pub table : String
  pub chain : String

abbrev pub same_conn : Conn → Conn → Bool
same_conn conn conn = true
same_conn conn6 conn6 = true
same_conn _ _ = false

abbrev pub same_place : Place → Place → Bool
same_place p q = same_conn p.driver q.driver && (str_eq p.table q.table && str_eq p.chain q.chain)

pub record Iptables : Type 1 where
  pub State : Type 0
  pub exists : Place → String → State → Result String Bool
  pub list : Place → State → Result String (List String)
  pub list_chains : Conn → String → State → Result String (List String)
  pub append : Place → String → State → Result String Unit × State
  pub insert : Place → String → ℕ → State → Result String Unit × State
  pub delete : Place → String → State → Result String Unit × State
  pub new_chain : Place → State → Result String Unit × State
  pub delete_chain : Place → State → Result String Unit × State

-- How often a rule stands in a chain.
abbrev pub count : String → List String → ℕ
count r [] = 0
count r (x ∷ xs) = if str_eq x r then suc (count r xs) else count r xs

-- `-I chain pos rule`: the rule gets the position, counted from 1.
abbrev pub insert_at : ℕ → String → List String → List String
insert_at pos r xs = take (pos - 1) xs ++ (r ∷ drop (pos - 1) xs)

-- `-D chain rule` removes the first rule that matches.
abbrev pub remove_first : String → List String → List String
remove_first r [] = []
remove_first r (x ∷ xs) = if str_eq x r then xs else x ∷ remove_first r xs

-- The documented behaviour. A command that fails changes nothing. `-S chain` prints a line for
-- the chain and one for each rule. Only an empty chain can be deleted, and a new one is empty.
pub record IsLawful (T : Iptables) : Type 0 where
  pub rules : T.State → Place → List String
  pub has_chain : T.State → Place → Bool
  pub exists_contains :
      (p : Place) (r : String) (s : T.State) {b : Bool}
      → T.exists p r s ≡ ok b
      → b ≡ contains r (rules s p)
  pub length-list :
      (p : Place) (s : T.State) {lines : List String}
      → T.list p s ≡ ok lines
      → length lines ≡ suc (length (rules s p))
  pub contains-list_chains :
      (p : Place) (s : T.State) {names : List String}
      → T.list_chains p.driver p.table s ≡ ok names
      → contains p.chain names ≡ has_chain s p
  pub rules-append :
      (p q : Place) (r : String) (s : T.State)
      → let (result, s') = T.append p r s in
        rules s' q ≡ (if is_ok result && same_place p q then rules s q ++ (r ∷ []) else rules s q)
  pub rules-insert :
      (p q : Place) (r : String) (n : ℕ) (s : T.State)
      → let (result, s') = T.insert p r n s in
        rules s' q
        ≡ (if is_ok result && same_place p q then insert_at n r (rules s q) else rules s q)
  pub rules-delete :
      (p q : Place) (r : String) (s : T.State)
      → let (result, s') = T.delete p r s in
        rules s' q
        ≡ (if is_ok result && same_place p q then remove_first r (rules s q) else rules s q)
  pub rules-new_chain : (p q : Place) (s : T.State) → rules (T.new_chain p s).1 q ≡ rules s q
  pub rules-delete_chain : (p q : Place) (s : T.State) → rules (T.delete_chain p s).1 q ≡ rules s q
  pub has_chain-append :
      (p q : Place) (r : String) (s : T.State) → has_chain (T.append p r s).1 q ≡ has_chain s q
  pub has_chain-insert :
      (p q : Place) (r : String) (n : ℕ) (s : T.State)
      → has_chain (T.insert p r n s).1 q ≡ has_chain s q
  pub has_chain-delete :
      (p q : Place) (r : String) (s : T.State) → has_chain (T.delete p r s).1 q ≡ has_chain s q
  pub has_chain-new_chain :
      (p q : Place) (s : T.State)
      → let (result, s') = T.new_chain p s in
        has_chain s' q ≡ (if is_ok result && same_place p q then true else has_chain s q)
  pub has_chain-delete_chain :
      (p q : Place) (s : T.State)
      → let (result, s') = T.delete_chain p s in
        has_chain s' q ≡ (if is_ok result && same_place p q then false else has_chain s q)
