-- ===== src/Firewall/Chain/Made.antt =====
-- About `create_network_chains`: the chains that are there after it.
use mathlib.Core.Path.{subst}
use netavark.Prelude.{
  String, ◌≡◌, refl, Bool, true, false, ◌&&◌, ◌||◌, List, [], ◌∷◌, ok, is_ok, contains, eq_refl,
  inl, inr, arith, Option-cases, Result-cases,
}
use netavark.Action.{for_each}
use netavark.Firewall.Tables.{Conn, conn, conn6, Place, same_conn, same_place, Iptables, IsLawful}
use netavark.Firewall.Tables.Counts.{same_place→eq}
use netavark.Firewall.Helpers.{append_unique, add_chain_unique}
use netavark.Firewall.Chain.{
  VarkRule, VarkChain, add_rule, add_rules, create_chain, create_network_chains,
}

-- Whether one of the chains is to be made at the place.
abbrev pub creates : List VarkChain → Place → Bool
creates [] q = false
creates (c ∷ cs) q = (c.create && same_place c.place q) || creates cs q

same_conn_refl : (c : Conn) → same_conn c c ≡ true
same_conn_refl conn = refl
same_conn_refl conn6 = refl

pub same_place_refl : (p : Place) → same_place p p ≡ true
same_place_refl p = rw (same_conn_refl p.driver, eq_refl p.table, eq_refl p.chain) refl

module _ (T : Iptables) (L : IsLawful T) (q : Place) where
  names-has_chain :
      (p : Place) (s : T.State) (names : List String)
      → T.list_chains p.driver p.table s ≡ ok names
      → same_place p q ≡ true
      → contains p.chain names ≡ L.has_chain s q
  names-has_chain p s names e h =
      subst (λ p'. contains p.chain names ≡ L.has_chain s p') (same_place→eq p q h)
        (L.contains-list_chains p s e)

  create_chain-has_chain :
      (c : VarkChain) (s : T.State)
      → let (result, s') = create_chain T c s in
        L.has_chain s' q ≡ (L.has_chain s q || (is_ok result && (c.create && same_place c.place q)))
  unfolding create_chain add_chain_unique
  create_chain-has_chain c s =
      let p = c.place in
      elim (Result-cases (T.list_chains p.driver p.table s)) [
        | inl (names, e) ↦ ground (arith, names-has_chain p s names e, L.has_chain-new_chain p q s)
        | inr (f, e) ↦ ground arith
      ]

  create_each-has_chain :
      (cs : List VarkChain) (s : T.State)
      → let (result, s') = for_each (create_chain T) cs s in
        is_ok result ≡ true → L.has_chain s' q ≡ (L.has_chain s q || creates cs q)
  unfolding for_each
  create_each-has_chain [] s h = ground arith
  create_each-has_chain (c ∷ cs) s h =
      ground (arith, create_chain-has_chain c s, create_each-has_chain cs (create_chain T c s).1)

  add_rule-has_chain :
      (p : Place) (r : VarkRule) (s : T.State)
      → L.has_chain (add_rule T p r s).1 q ≡ L.has_chain s q
  unfolding add_rule append_unique
  add_rule-has_chain p r s = elim (Option-cases r.position) [
    | inl e ↦ rw (e, add_rule) (ground (arith, L.has_chain-append p q r.rule s))
    | inr (n, e) ↦ rw (e, add_rule) (ground (arith, L.has_chain-insert p q r.rule n s))
  ]

  add_each-has_chain :
      (p : Place) (rs : List VarkRule) (s : T.State)
      → L.has_chain (for_each (add_rule T p) rs s).1 q ≡ L.has_chain s q
  unfolding for_each
  add_each-has_chain p [] s = refl
  add_each-has_chain p (r ∷ rs) s =
      ground (arith, add_rule-has_chain p r s, add_each-has_chain p rs (add_rule T p r s).1)

  add_chains-has_chain :
      (cs : List VarkChain) (s : T.State)
      → L.has_chain (for_each (add_rules T) cs s).1 q ≡ L.has_chain s q
  unfolding for_each add_rules
  add_chains-has_chain [] s = refl
  add_chains-has_chain (c ∷ cs) s =
      ground
        (arith, add_each-has_chain c.place c.rules s, add_chains-has_chain cs (add_rules T c s).1)

  -- After a setup of chains that succeeds a chain is there if it was there before, or if the setup
  -- was asked to make it, and no other is.
  pub create_network_chains-has_chain :
      (cs : List VarkChain) (s : T.State)
      → is_ok (create_network_chains T cs s).0 ≡ true
      → L.has_chain (create_network_chains T cs s).1 q ≡ (L.has_chain s q || creates cs q)
  unfolding create_network_chains
  create_network_chains-has_chain cs s h = ground (
    arith,
    create_each-has_chain cs s,
    add_chains-has_chain cs (for_each (create_chain T) cs s).1,
  )
