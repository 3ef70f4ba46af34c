-- ===== src/Firewall/Chain/Again.antt =====
-- About a second run of `create_network_chains`.
use netavark.Prelude.{
  ◌<◌, String, ◌≡◌, refl, true, ◌&&◌, List, [], ◌∷◌, str_eq, eq_refl, inl, inr, arith, Option-cases,
  Result-cases, All,
}
use netavark.Action.{for_each}
use netavark.Firewall.Tables.{Place, same_place, Iptables, IsLawful}
use netavark.Firewall.Tables.Counts.{tally}
use netavark.Firewall.Helpers.{append_unique, add_chain_unique}
use netavark.Firewall.Chain.{
  VarkRule, VarkChain, add_rule, add_rules, create_chain, create_network_chains,
}
use netavark.Firewall.Chain.Setup.{has_rule, wants, exists-tally}
use netavark.Firewall.Chain.Made.{creates, same_place_refl}

module _ (T : Iptables) (L : IsLawful T) (s : T.State) where
  -- The rules of a list stand at a place.
  abbrev HasRules : Place → List VarkRule → Type 0
  HasRules p = All (λ r. 0 < tally T L p r.rule s)

  -- A chain is there with all its rules.
  abbrev IsSetUp : VarkChain → Type 0
  IsSetUp c = (c.create ≡ true → L.has_chain s c.place ≡ true) × HasRules c.place c.rules

  add_rule_again : (p : Place) (r : VarkRule) → 0 < tally T L p r.rule s → (add_rule T p r s).1 ≡ s
  unfolding add_rule append_unique
  add_rule_again p r h =
      let here : (same_place p p && str_eq r.rule r.rule) ≡ true =
        ground (arith, same_place_refl p, eq_refl r.rule) in
      elim (Result-cases (T.exists p r.rule s)) [
        | inl (b, e) ↦ elim (Option-cases r.position) [
          | inl e' ↦
              rw (e', add_rule) (ground (arith, exists-tally T L p r.rule p r.rule s b e here))
          | inr (n, e') ↦
              rw (e', add_rule) (ground (arith, exists-tally T L p r.rule p r.rule s b e here))
        ]
        | inr (f, e) ↦ elim (Option-cases r.position) [
          | inl e' ↦ rw (e', add_rule) (ground arith)
          | inr (n, e') ↦ rw (e', add_rule) (ground arith)
        ]
      ]

  add_each_again :
      (p : Place) (rs : List VarkRule) → HasRules p rs → (for_each (add_rule T p) rs s).1 ≡ s
  unfolding for_each
  add_each_again p [] h = refl
  add_each_again p (r ∷ rs) h = ground (arith, add_rule_again p r h.0, add_each_again p rs h.1)

  create_chain_again :
      (c : VarkChain)
      → (c.create ≡ true → L.has_chain s c.place ≡ true)
      → (create_chain T c s).1 ≡ s
  unfolding create_chain add_chain_unique
  create_chain_again c h =
      let p = c.place in
      elim (Result-cases (T.list_chains p.driver p.table s)) [
        | inl (names, e) ↦ ground (arith, L.contains-list_chains p s e)
        | inr (f, e) ↦ ground arith
      ]

  create_each_again :
      (cs : List VarkChain) → All IsSetUp cs → (for_each (create_chain T) cs s).1 ≡ s
  unfolding for_each
  create_each_again [] h = refl
  create_each_again (c ∷ cs) h =
      ground (arith, create_chain_again c h.0.0, create_each_again cs h.1)

  add_chains_again : (cs : List VarkChain) → All IsSetUp cs → (for_each (add_rules T) cs s).1 ≡ s
  unfolding for_each add_rules
  add_chains_again [] h = refl
  add_chains_again (c ∷ cs) h =
      ground (arith, add_each_again c.place c.rules h.0.1, add_chains_again cs h.1)

  create_network_chains_still_each :
      (cs : List VarkChain) → All IsSetUp cs → (create_network_chains T cs s).1 ≡ s
  unfolding create_network_chains
  create_network_chains_still_each cs h =
      ground (arith, create_each_again cs h, add_chains_again cs h)

  -- The rules of one chain, from what is wanted of the tables.
  has_rules :
      (cs : List VarkChain) (p : Place) (rs : List VarkRule)
      → ((x : String) → has_rule x rs ≡ true → 0 < tally T L p x s)
      → HasRules p rs
  has_rules cs p [] h = tt
  has_rules cs p (r ∷ rs) h =
      (h r.rule (ground (arith, eq_refl r.rule)), has_rules cs p rs (λ x e. h x (ground arith)))

  is_set_up :
      (cs : List VarkChain)
      → ((q : Place) → creates cs q ≡ true → L.has_chain s q ≡ true)
      → ((q : Place) (x : String) → wants cs q x ≡ true → 0 < tally T L q x s)
      → All IsSetUp cs
  is_set_up [] f h = tt
  is_set_up (c ∷ cs) f h = (
    (
      λ made. f c.place (ground (arith, same_place_refl c.place)),
      has_rules cs c.place c.rules (λ x e. h c.place x (ground (arith, same_place_refl c.place))),
    ),
    is_set_up cs (λ q e. f q (ground arith)) (λ q x e. h q x (ground arith)),
  )

  -- Where the chains and their rules are in the tables, a setup changes nothing in them.
  pub create_network_chains_still :
      (cs : List VarkChain)
      → ((q : Place) → creates cs q ≡ true → L.has_chain s q ≡ true)
      → ((q : Place) (x : String) → wants cs q x ≡ true → 0 < tally T L q x s)
      → (create_network_chains T cs s).1 ≡ s
  create_network_chains_still cs f h = create_network_chains_still_each cs (is_set_up cs f h)
