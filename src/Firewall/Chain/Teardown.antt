-- ===== src/Firewall/Chain/Teardown.antt =====
-- About `remove_rules` and `remove`: what leaves the tables, and what stays.
use netavark.Prelude.{
  ◌-◌, ◌≤◌, ◌<◌, String, ◌≡◌, ap, Bool, true, false, not, ◌&&◌, ◌||◌, List, [], ◌∷◌, length, is_ok,
  str_eq, inl, inr, arith, if◌then◌else◌, Result-cases,
}
use netavark.Action.{for_each}
use netavark.Firewall.Tables.{Place, same_place, Iptables, IsLawful, count}
use netavark.Firewall.Tables.Counts.{tally, tally-delete}
use netavark.Firewall.Helpers.{remove_if_rule_exists}
use netavark.Firewall.Chain.{VarkRule, VarkChain, skips, remove_rule, remove_rules, remove}
use netavark.Firewall.Chain.Setup.{exists-tally}

-- Whether a teardown takes the text out by one of the rules.
abbrev pub drops_rule : Bool → String → List VarkRule → Bool
drops_rule complete x [] = false
drops_rule complete x (r ∷ rs) =
    (not (skips complete r.td_policy) && str_eq r.rule x) || drops_rule complete x rs

-- Whether a teardown of the chains takes the rule out at the place.
abbrev pub drops : Bool → List VarkChain → Place → String → Bool
drops complete [] q x = false
drops complete (c ∷ cs) q x =
    (same_place c.place q && drops_rule complete x c.rules) || drops complete cs q x

module _ (T : Iptables) (L : IsLawful T) (complete : Bool) (q : Place) (x : String) where
  remove_rule-tally :
      (p : Place) (r : VarkRule) (s : T.State)
      → let (result, s') = remove_rule T complete p r s in
        tally T L q x s' ≡ (
          if is_ok result
            && (not (skips complete r.td_policy) && (same_place p q && str_eq r.rule x))
          then tally T L q x s - 1
          else tally T L q x s)
  unfolding remove_rule remove_if_rule_exists
  remove_rule-tally p r s = elim (Result-cases (T.exists p r.rule s)) [
    | inl (b, e) ↦
        ground (arith, exists-tally T L q x p r.rule s b e, tally-delete T L q x p r.rule s)
    | inr (f, e) ↦ ground arith
  ]

  remove_each-tally :
      (p : Place) (rs : List VarkRule) (s : T.State)
      → let (result, s') = for_each (remove_rule T complete p) rs s in
        (tally T L q x s' ≤ tally T L q x s)
        × (is_ok result ≡ true
            → tally T L q x s ≤ 1
            → tally T L q x s'
              ≡ (if same_place p q && drops_rule complete x rs then 0 else tally T L q x s))
  unfolding for_each
  remove_each-tally p [] s = ground arith
  remove_each-tally p (r ∷ rs) s =
      ground
        (arith, remove_rule-tally p r s, remove_each-tally p rs (remove_rule T complete p r s).1)

  pub remove_chains-tally :
      (cs : List VarkChain) (s : T.State)
      → let (result, s') = for_each (remove_rules T complete) cs s in
        (tally T L q x s' ≤ tally T L q x s)
        × (is_ok result ≡ true
            → tally T L q x s ≤ 1
            → tally T L q x s' ≡ (if drops complete cs q x then 0 else tally T L q x s))
  unfolding for_each remove_rules
  remove_chains-tally [] s = ground arith
  remove_chains-tally (c ∷ cs) s = ground (
    arith,
    remove_each-tally c.place c.rules s,
    remove_chains-tally cs (remove_rules T complete c s).1,
  )

  -- Where the removal of the rules of some chains succeeds, a rule that stood at most once in its
  -- chain is gone if one of the chains lists it for this kind of teardown, and stays if not.
  pub remove_chains_lem :
      (cs : List VarkChain) (s : T.State)
      → is_ok (for_each (remove_rules T complete) cs s).0 ≡ true
      → tally T L q x s ≤ 1
      → tally T L q x (for_each (remove_rules T complete) cs s).1
        ≡ (if drops complete cs q x then 0 else tally T L q x s)
  remove_chains_lem cs s = (remove_chains-tally cs s).1

  pub remove-tally :
      (c : VarkChain) (s : T.State) → tally T L q x (remove T c s).1 ≡ tally T L q x s
  unfolding remove
  remove-tally c s = ground (arith, ap (count x) (L.rules-delete_chain c.place q s))

-- A chain that still has a rule is not deleted: nothing changes.
remove_kept :
    (T : Iptables) (L : IsLawful T) (c : VarkChain) (s : T.State)
    → 0 < length (L.rules s c.place)
    → (remove T c s).1 ≡ s
unfolding remove
remove_kept T L c s h = elim (Result-cases (T.list c.place s)) [
  | inl (lines, e) ↦ ground (arith, L.length-list c.place s e)
  | inr (f, e) ↦ ground arith
]
