-- ===== src/Firewall/Chain/Setup.antt =====
-- About `create_network_chains`: the rules that are in the tables after it, and a second run.
use Prim.Native.Nat.{max}
use netavark.Prelude.{
  ℕ, ◌≤◌, String, ◌≡◌, refl, ap, ltb, ◌∙◌, Bool, true, false, ◌&&◌, ◌||◌, List, [], ◌∷◌, ok, is_ok,
  str_eq, eq_iff, inl, inr, arith, if◌then◌else◌, Option-cases, Result-cases,
}
use mathlib.Core.Path.{subst}
use netavark.Action.{for_each}
use netavark.Firewall.Tables.{Place, same_place, Iptables, IsLawful, count}
use netavark.Firewall.Tables.Counts.{
  tally, tally-append, tally-insert, contains-eq-count, same_place→eq,
}
use netavark.Firewall.Helpers.{append_unique, add_chain_unique}
use netavark.Firewall.Chain.{
  VarkRule, VarkChain, add_rule, add_rules, create_chain, create_network_chains,
}

-- Whether the text is one of the rules.
abbrev pub has_rule : String → List VarkRule → Bool
has_rule x [] = false
has_rule x (r ∷ rs) = str_eq r.rule x || has_rule x rs

-- Whether one of the chains puts the rule at the place.
abbrev pub wants : List VarkChain → Place → String → Bool
wants [] q x = false
wants (c ∷ cs) q x = (same_place c.place q && has_rule x c.rules) || wants cs q x

abbrev pub at_least_once : Bool → ℕ → ℕ
at_least_once b n = if b then max 1 n else n

module _ (T : Iptables) (L : IsLawful T) (q : Place) (x : String) where
  -- `exists` tells whether the rule stands in the chain.
  pub exists-tally :
      (p : Place) (r : String) (s : T.State) (b : Bool)
      → T.exists p r s ≡ ok b
      → (same_place p q && str_eq r x) ≡ true
      → b ≡ ltb 0 (tally T L q x s)
  exists-tally p r s b e h =
      subst (λ p'. b ≡ ltb 0 (count x (L.rules s p'))) (same_place→eq p q (ground arith))
        (subst (λ r'. b ≡ ltb 0 (count r' (L.rules s p))) ((eq_iff r x).0 (ground arith))
          (L.exists_contains p r s e ∙ contains-eq-count r (L.rules s p)))

  -- A rule that is asked for stands in the chain once it is added, and only once if it is new.
  add_rule-tally :
      (p : Place) (r : VarkRule) (s : T.State)
      → let (result, s') = add_rule T p r s in
        tally T L q x s'
        ≡ at_least_once (is_ok result && (same_place p q && str_eq r.rule x)) (tally T L q x s)
  unfolding add_rule append_unique
  add_rule-tally p r s = elim (Option-cases r.position) [
    | inl e ↦
        rw (e, add_rule)
          (elim (Result-cases (T.exists p r.rule s)) [
            | inl (b, e') ↦
                ground (arith, exists-tally p r.rule s b e', tally-append T L q x p r.rule s)
            | inr (e', f) ↦ ground arith
          ])
    | inr (n, e) ↦
        rw (e, add_rule)
          (elim (Result-cases (T.exists p r.rule s)) [
            | inl (b, e') ↦
                ground (arith, exists-tally p r.rule s b e', tally-insert T L q x p r.rule n s)
            | inr (e', f) ↦ ground arith
          ])
  ]

  add_each-tally :
      (p : Place) (rs : List VarkRule) (s : T.State)
      → let (result, s') = for_each (add_rule T p) rs s in
        (tally T L q x s ≤ tally T L q x s')
        × (is_ok result ≡ true
            → tally T L q x s' ≡ at_least_once (same_place p q && has_rule x rs) (tally T L q x s))
  unfolding for_each
  add_each-tally p [] s = ground arith
  add_each-tally p (r ∷ rs) s =
      ground (arith, add_rule-tally p r s, add_each-tally p rs (add_rule T p r s).1)

  create_chain-tally :
      (c : VarkChain) (s : T.State) → tally T L q x (create_chain T c s).1 ≡ tally T L q x s
  unfolding create_chain add_chain_unique
  create_chain-tally c s = ground (arith, ap (count x) (L.rules-new_chain c.place q s))

  create_each-tally :
      (cs : List VarkChain) (s : T.State)
      → tally T L q x (for_each (create_chain T) cs s).1 ≡ tally T L q x s
  unfolding for_each
  create_each-tally [] s = refl
  create_each-tally (c ∷ cs) s =
      ground (arith, create_chain-tally c s, create_each-tally cs (create_chain T c s).1)

  add_chains-tally :
      (cs : List VarkChain) (s : T.State)
      → let (result, s') = for_each (add_rules T) cs s in
        (tally T L q x s ≤ tally T L q x s')
        × (is_ok result ≡ true → tally T L q x s' ≡ at_least_once (wants cs q x) (tally T L q x s))
  unfolding for_each add_rules
  add_chains-tally [] s = ground arith
  add_chains-tally (c ∷ cs) s =
      ground (arith, add_each-tally c.place c.rules s, add_chains-tally cs (add_rules T c s).1)

  pub create_network_chains-tally :
      (cs : List VarkChain) (s : T.State)
      → let (result, s') = create_network_chains T cs s in
        (tally T L q x s ≤ tally T L q x s')
        × (is_ok result ≡ true → tally T L q x s' ≡ at_least_once (wants cs q x) (tally T L q x s))
  unfolding create_network_chains
  create_network_chains-tally cs s =
      ground (arith, create_each-tally cs s, add_chains-tally cs (for_each (create_chain T) cs s).1)

  -- Where a setup of chains succeeds, every rule that one of them lists stands in that chain,
  -- once if it is new, and all others stand there as often as before.
  pub create_network_chains_lem :
      (cs : List VarkChain) (s : T.State)
      → is_ok (create_network_chains T cs s).0 ≡ true
      → tally T L q x (create_network_chains T cs s).1
        ≡ at_least_once (wants cs q x) (tally T L q x s)
  create_network_chains_lem cs s = (create_network_chains-tally cs s).1
