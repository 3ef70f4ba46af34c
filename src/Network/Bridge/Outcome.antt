-- ===== src/Network/Bridge/Outcome.antt =====
-- About the bridge driver as a whole: what it does to the firewall, and the errors it reports.
use mathlib.Core.Option as Option
use netavark.Prelude.{
  String, ◌≡◌, refl, Bool, true, false, Option, none, some, List, ok, err, inl, inr, arith,
  Bool-cases, Result-cases,
}
use netavark.Error.{
  NetavarkError, NetavarkErrorList, NetavarkResult, nil, cons, is_empty, push, list, new_list,
}
use netavark.Error.Flat.{IsChain, push_cons, push-IsChain}
use netavark.Network.Types.{IpAddr, IpNet}
use netavark.Network.Text.{NetText}
use netavark.Network.Kernel.{Kernel, host_side, netns_side, TextLib}
use netavark.Network.Netlink.Types.{name_of, id, master, cons as cons_nla, nil as nil_nla}
use netavark.Network.Machine.{DriverInfo, Machine}
use netavark.Network.Bridge.Options.{InternalData, get_interface_name}
use netavark.Network.Bridge.Links.{is_empty_links, remove_link}
use netavark.Network.Bridge.Firewall.{
  get_firewall_conf, teardown_options, remove_firewall, teardown_firewall,
}
use netavark.Network.Bridge.Driver.{
  setup_ipv4_fw_sysctl, setup_ipv6_fw_sysctl, setup_validated, setup, teardown, push_error,
}
use netavark.Firewall.Interface.{FirewallDriver}

-- Pushing onto errors leaves errors.
push_error-nonempty :
    {A : Type 0} (x : NetavarkErrorList) (r : NetavarkResult A)
    → is_empty x ≡ false
    → is_empty (push_error x r) ≡ false
push_error-nonempty (cons x xs) (err e) h = push_cons x xs e
push_error-nonempty (cons x xs) (ok a) h = refl
push_error-nonempty nil r h = ground (arith, h)

module _ (K : Kernel) (text : TextLib) where
  remove_link-IsChain :
      (br_name name : String) (s : K.State) (e : NetavarkError)
      → (remove_link K text br_name name s).0 ≡ err e
      → IsChain e
  unfolding remove_link
  remove_link-IsChain br_name name s e h =
      let s1 = (K.del_link netns_side (name_of name) s).1 in
      let got = K.get_link host_side (name_of br_name) s1 in
      elim (Result-cases (K.del_link netns_side (name_of name) s).0) [
        | inr (_, q) ↦ ground (arith, q, h)
        | inl (_, q) ↦ elim (Result-cases got.0) [
          | inr (_, q1) ↦ ground (arith, q, q1, h)
          | inl (br, q1) ↦
              let dumped = K.dump_links host_side (cons_nla (master br.index) nil_nla) got.1 in
              elim (Result-cases dumped.0) [
                | inr (_, q2) ↦ ground (arith, q, q1, q2, h)
                | inl (links, q2) ↦ elim (Bool-cases (is_empty_links K text links)) [
                  | inr b ↦ ground (arith, q, q1, q2, b, h)
                  | inl b ↦ elim (Result-cases (K.del_link host_side (id br.index) dumped.1).0) [
                    | inr (_, q3) ↦ ground (arith, q, q1, q2, b, q3, h)
                    | inl (_, q3) ↦ ground (arith, q, q1, q2, b, q3, h)
                  ]
                ]
              ]
        ]
      ]

module _ (K : Kernel) {S : Type 0} (fw : FirewallDriver S) (text : TextLib) where
  setup_ipv4_fw_sysctl-firewall :
      (h : Machine K S) → (setup_ipv4_fw_sysctl K fw text h).1.firewall ≡ h.firewall
  unfolding setup_ipv4_fw_sysctl
  setup_ipv4_fw_sysctl-firewall h = elim (Bool-cases h.ipv4_forward_once) [
    | inl e ↦ rw (e, setup_ipv4_fw_sysctl) refl
    | inr e ↦ rw (e, setup_ipv4_fw_sysctl) refl
  ]

  setup_ipv6_fw_sysctl-firewall :
      (h : Machine K S) → (setup_ipv6_fw_sysctl K fw text h).1.firewall ≡ h.firewall
  unfolding setup_ipv6_fw_sysctl
  setup_ipv6_fw_sysctl-firewall h = elim (Bool-cases h.ipv6_forward_once) [
    | inl e ↦ rw (e, setup_ipv6_fw_sysctl) refl
    | inr e ↦ rw (e, setup_ipv6_fw_sysctl) refl
  ]

  -- An internal network has no firewall rules: its setup leaves the firewall as it was, whether
  -- the driver was validated or not and wherever the setup fails.
  pub setup-internal :
      (info : DriverInfo) (data_ : Option InternalData) (h : Machine K S)
      → info.network.internal ≡ true
      → (setup K fw text info data_ h).1.firewall ≡ h.firewall
  unfolding setup setup_validated
  setup-internal info none h internal = refl
  setup-internal info (some d) h internal =
      let h1 = (setup_ipv4_fw_sysctl K fw text h).1 in
      ground (arith, internal, setup_ipv4_fw_sysctl-firewall h, setup_ipv6_fw_sysctl-firewall h1)

  -- If the interfaces of a network that is not internal cannot be removed, the port forwarding of
  -- the container is torn down all the same, the network's rules stay, and the error is reported,
  -- with that of the port forwarding if there is one.
  pub teardown-error :
      (net_text : NetText) (info : DriverInfo) (data_ : Option InternalData) (h : Machine K S)
      → (br_name : String) (e : NetavarkError) (nets : List IpNet) (nameservers : List IpAddr)
      → (isolate : Bool) → info.network.internal ≡ false
      → get_interface_name info.network.network_interface ≡ ok br_name
      → (remove_link K text br_name info.per_network_opts.interface_name h.kernel).0 ≡ err e
      → teardown_options net_text text info data_ ≡ some (nets, (nameservers, isolate))
      → let k = (remove_link K text br_name info.per_network_opts.interface_name h.kernel).1 in
        let spf = (get_firewall_conf text info nets nameservers isolate).1 in
        let (r, f) =
          fw.teardown_port_forward
            (record { config = spf; complete_teardown = false })
            h.firewall in
        teardown K fw text net_text info data_ h
        ≡ some (err (list (push_error (push new_list e) r)), record h { kernel = k; firewall = f })
  unfolding teardown teardown_firewall remove_firewall
  teardown-error net_text info data_ h br_name e nets nameservers isolate external name fails
        options =
      let c =
        remove_link-IsChain K text br_name info.per_network_opts.interface_name h.kernel e fails in
      let spf = (get_firewall_conf text info nets nameservers isolate).1 in
      let r =
        fw.teardown_port_forward (record { config = spf; complete_teardown = false }) h.firewall in
      ground (
        arith,
        external,
        name,
        fails,
        options,
        push_error-nonempty (push new_list e) r.0 (push-IsChain e c),
      )
