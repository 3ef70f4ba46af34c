-- ===== src/Firewall/NetworkChains/Order.antt =====
-- About the order of the rules in the chain FORWARD after the setup of a network.
use netavark.Prelude.{
  ℕ, String, ◌<>◌, ◌≡◌, refl, Bool, true, false, ◌&&◌, none, some, List, [], ◌∷◌, is_ok, contains,
  inl, inr, arith, ◌++◌, All, if◌then◌else◌, Option-cases, Result-cases,
}
use netavark.Network.Types.{IpNet}
use netavark.Network.Text.{AddrText}
use netavark.Action.{for_each}
use netavark.Firewall.Tables.{Conn, Place, same_place, Iptables, IsLawful, insert_at}
use netavark.Firewall.Helpers.{append_unique, add_chain_unique}
use netavark.Firewall.Chain.{
  VarkRule, VarkChain, new_chain, build_rule, add_rule, add_rules, create_chain,
  create_network_chains,
}
use netavark.Firewall.Chain.Made.{same_place_refl}
use netavark.Firewall.NetworkChains.{
  filter, forward, netavark_forward, netavark_isolation_1, hashed_network_chain, postrouting_chain,
  isolation_forward_rule, isolation_chain_1, isolation_chain_2, forward_rule,
  netavark_forward_chain, get_network_chains,
}

module _ (T : Iptables) (L : IsLawful T) (q : Place) where
  add_rule_elsewhere :
      (p : Place) (r : VarkRule) (s : T.State)
      → same_place p q ≡ false
      → L.rules (add_rule T p r s).1 q ≡ L.rules s q
  unfolding add_rule append_unique
  add_rule_elsewhere p r s h = elim (Option-cases r.position) [
    | inl e ↦ rw (e, add_rule) (ground (arith, L.rules-append p q r.rule s))
    | inr (n, e) ↦ rw (e, add_rule) (ground (arith, L.rules-insert p q r.rule n s))
  ]

  add_each_elsewhere :
      (p : Place) (rs : List VarkRule) (s : T.State)
      → same_place p q ≡ false
      → L.rules (for_each (add_rule T p) rs s).1 q ≡ L.rules s q
  unfolding for_each
  add_each_elsewhere p [] s h = refl
  add_each_elsewhere p (r ∷ rs) s h =
      ground (arith, add_rule_elsewhere p r s h, add_each_elsewhere p rs (add_rule T p r s).1 h)

  add_rules_elsewhere :
      (c : VarkChain) (s : T.State)
      → same_place c.place q ≡ false
      → L.rules (add_rules T c s).1 q ≡ L.rules s q
  unfolding add_rules
  add_rules_elsewhere c s h = add_each_elsewhere c.place c.rules s h

  create_each_rules :
      (cs : List VarkChain) (s : T.State)
      → L.rules (for_each (create_chain T) cs s).1 q ≡ L.rules s q
  unfolding for_each create_chain add_chain_unique
  create_each_rules [] s = refl
  create_each_rules (c ∷ cs) s =
      ground (arith, L.rules-new_chain c.place q s, create_each_rules cs (create_chain T c s).1)

  -- A rule with a position is put there unless the chain has it.
  add_rule_at :
      (r : VarkRule) (n : ℕ) (s : T.State)
      → r.position ≡ some n
      → is_ok (add_rule T q r s).0 ≡ true
      → L.rules (add_rule T q r s).1 q
        ≡ (if contains r.rule (L.rules s q) then L.rules s q else insert_at n r.rule (L.rules s q))
  unfolding add_rule
  add_rule_at r n s e =
      rw (e, add_rule)
        (elim (Result-cases (T.exists q r.rule s)) [
          | inl (b, e') ↦ ground (
            arith,
            L.exists_contains q r.rule s e',
            L.rules-insert q q r.rule n s,
            same_place_refl q,
          )
          | inr (f, e') ↦ ground arith
        ])

  abbrev Elsewhere : VarkChain → Type 0
  Elsewhere c = same_place c.place q ≡ false

  add_chains-Elsewhere :
      (cs : List VarkChain) (s : T.State)
      → All Elsewhere cs
      → L.rules (for_each (add_rules T) cs s).1 q ≡ L.rules s q
  unfolding for_each
  add_chains-Elsewhere [] s h = refl
  add_chains-Elsewhere (c ∷ cs) s h =
      ground (arith, add_rules_elsewhere c s h.0, add_chains-Elsewhere cs (add_rules T c s).1 h.1)

  -- Where one chain alone is at the place, it alone decides what happens to the rules there.
  add_chains_one :
      (before : List VarkChain) (c : VarkChain) (behind : List VarkChain) (s : T.State)
      → All Elsewhere before
      → All Elsewhere behind
      → is_ok (for_each (add_rules T) (before ++ (c ∷ behind)) s).0 ≡ true
      → (t : T.State) × (L.rules t q ≡ L.rules s q)
        × (is_ok (add_rules T c t).0 ≡ true)
        × (L.rules (for_each (add_rules T) (before ++ (c ∷ behind)) s).1 q
            ≡ L.rules (add_rules T c t).1 q)
  unfolding for_each
  add_chains_one [] c behind s f g h =
      (s, refl, ground arith, ground (arith, add_chains-Elsewhere behind (add_rules T c s).1 g))
  add_chains_one (b ∷ before) c behind s f g h =
      let rest = add_chains_one before c behind (add_rules T b s).1 f.1 g (ground arith) in
      (rest.0, ground (arith, rest.1, add_rules_elsewhere b s f.0), rest.2, ground (arith, rest.3))

abbrev pub forward_place : Conn → Place
forward_place c = record { driver = c; table = filter; chain = forward }

abbrev pub isolation_jump : String
isolation_jump = "-j " <> netavark_isolation_1

abbrev pub forward_jump : String
forward_jump = "-m comment --comment 'netavark firewall plugin rules' -j " <> netavark_forward

-- The chain FORWARD with the jump to the program's chain, put first if it is new.
abbrev pub with_forward_jump : List String → List String
with_forward_jump xs = if contains forward_jump xs then xs else forward_jump ∷ xs

module _ (T : Iptables) (L : IsLawful T) (text : AddrText) (c : Conn) (network : IpNet)
    (network_hash_name : String) (is_v6 : Bool) (interface_name : String) where
  abbrev pub chains : Bool → List VarkChain
  chains = get_network_chains text c network network_hash_name is_v6 interface_name

  abbrev pub q : Place
  q = forward_place c

  add_plain :
      (t : T.State)
      → let f = build_rule (new_chain c filter forward none) (forward_rule text c 1) in
        is_ok (add_rules T f t).0 ≡ true
        → L.rules (add_rules T f t).1 q ≡ with_forward_jump (L.rules t q)
  unfolding add_rules for_each
  add_plain t h = ground (arith, add_rule_at T L q (forward_rule text c 1) 1 t refl)

  add_isolated :
      (t : T.State)
      → let f =
          build_rule
            (build_rule (new_chain c filter forward none) (isolation_forward_rule text c 1))
            (forward_rule text c 2) in
        contains isolation_jump (L.rules t q) ≡ false
        → is_ok (add_rules T f t).0 ≡ true
        → L.rules (add_rules T f t).1 q ≡ isolation_jump ∷ with_forward_jump (L.rules t q)
  unfolding add_rules for_each
  add_isolated t new h =
      let r = isolation_forward_rule text c 1 in
      let t' = (add_rule T q r t).1 in
      let first : L.rules t' q ≡ isolation_jump ∷ L.rules t q =
        ground (arith, add_rule_at T L q r 1 t refl) in
      ground (arith, first, add_rule_at T L q (forward_rule text c 2) 2 t' refl)

  plain_order :
      (s : T.State)
      → is_ok (create_network_chains T (chains false) s).0 ≡ true
      → L.rules (create_network_chains T (chains false) s).1 q ≡ with_forward_jump (L.rules s q)
  unfolding create_network_chains get_network_chains
  plain_order s h =
      let f = build_rule (new_chain c filter forward none) (forward_rule text c 1) in
      let s0 = (for_each (create_chain T) (chains false) s).1 in
      let one =
        add_chains_one T L q
          (hashed_network_chain text c network network_hash_name is_v6
            ∷ postrouting_chain text c network network_hash_name
            ∷ [])
          f (netavark_forward_chain text c network ∷ []) s0 (ground arith, (ground arith, tt))
          (ground arith, tt) (ground arith) in
      ground (arith, create_each_rules T L q (chains false) s, one.1, add_plain one.0 one.2, one.3)

  isolated_order :
      (s : T.State)
      → contains isolation_jump (L.rules s q) ≡ false
      → is_ok (create_network_chains T (chains true) s).0 ≡ true
      → L.rules (create_network_chains T (chains true) s).1 q
        ≡ isolation_jump ∷ with_forward_jump (L.rules s q)
  unfolding create_network_chains get_network_chains
  isolated_order s new h =
      let f =
        build_rule (build_rule (new_chain c filter forward none) (isolation_forward_rule text c 1))
          (forward_rule text c 2) in
      let s0 = (for_each (create_chain T) (chains true) s).1 in
      let same : L.rules s0 q ≡ L.rules s q = create_each_rules T L q (chains true) s in
      let one =
        add_chains_one T L q
          (hashed_network_chain text c network network_hash_name is_v6
            ∷ postrouting_chain text c network network_hash_name
            ∷ isolation_chain_1 text c interface_name 1
            ∷ isolation_chain_2 text c interface_name 1
            ∷ [])
          f (netavark_forward_chain text c network ∷ []) s0
          (ground arith, (ground arith, (ground arith, (ground arith, tt)))) (ground arith, tt)
          (ground arith) in
      ground (arith, same, one.1, add_isolated one.0 (rw (one.1, same) new) one.2, one.3)

  -- Where the setup of a subnet's chains succeeds, and the network is not isolated or its jump to
  -- the isolation chains was not in the chain FORWARD: that chain then holds what it held before,
  -- in the same order, behind the jump to the chain of the program, unless that was there already;
  -- and for an isolated network, the jump to the isolation chains is first.
  pub get_network_chains_order :
      (isolation : Bool) (s : T.State)
      → (isolation && contains isolation_jump (L.rules s q)) ≡ false
      → is_ok (create_network_chains T (chains isolation) s).0 ≡ true
      → L.rules (create_network_chains T (chains isolation) s).1 q ≡ (
          if isolation
          then isolation_jump ∷ with_forward_jump (L.rules s q)
          else with_forward_jump (L.rules s q))
  get_network_chains_order true s new h = isolated_order s new h
  get_network_chains_order false s new h = plain_order s h
