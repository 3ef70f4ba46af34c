-- ===== src/Network/Bridge/Namespace.antt =====
-- About the namespace that the process is in, after the code that `exec_netns!` runs in the
-- container's: here, in the bridge driver, and where the code gives its result as a value.
use netavark.Prelude.{
  ℕ, String, ◌<>◌, ◌≡◌, ok, err, inl, inr, arith, Bool-cases, Result-cases, str_eq,
}
use netavark.Error.{NetavarkError}
use netavark.Action.{Action, ◌>>◌}
use netavark.Network.Kernel.{Kernel, TextLib}
use netavark.Network.CoreUtils.{
  apply_sysctl_value, apply_sysctl, join_netns, is_ignored, disable_ipv6_autoconf, exec_netns,
}
use netavark.Network.Bridge.Options.{InternalData}
use netavark.Network.Bridge.Links.{when_, in_container}

-- The namespace of the process, as a number: `setns` enters the one of its file descriptor, and a
-- sysctl does not leave it.
pub record Namespaces (K : Kernel) : Type 0 where
  pub current : K.State → ℕ
  pub setns_law : (fd : ℕ) (s : K.State) → (K.setns fd s).0 ≡ ok tt → current (K.setns fd s).1 ≡ fd
  pub sysctl_law :
      (name val : String) (s : K.State) → current (K.sysctl_set name val s).1 ≡ current s

module _ (K : Kernel) (N : Namespaces K) where
  apply_sysctl_value-current :
      (name val : String) (s : K.State)
      → N.current (apply_sysctl_value K name val s).1 ≡ N.current s
  unfolding apply_sysctl_value
  apply_sysctl_value-current name val s = elim (Result-cases (K.sysctl_new name s)) [
    | inr (e, q) ↦ ground (arith, q)
    | inl (_, q) ↦ elim (Result-cases (K.sysctl_value name s)) [
      | inr (e, q') ↦ ground (arith, q, q')
      | inl (v, q') ↦ elim (Bool-cases (str_eq v val)) [
        | inl same ↦ ground (arith, q, q', same)
        | inr other ↦ ground (arith, q, q', other, N.sysctl_law name val s)
      ]
    ]
  ]

  apply_sysctl-current :
      (name val : String) (s : K.State) → N.current (apply_sysctl K name val s).1 ≡ N.current s
  unfolding apply_sysctl
  apply_sysctl-current name val s = elim (Result-cases (apply_sysctl_value K name val s).0) [
    | inr (e, q) ↦ ground (arith, q, apply_sysctl_value-current name val s)
    | inl (_, q) ↦ ground (arith, q, apply_sysctl_value-current name val s)
  ]

  disable_ipv6_autoconf-current :
      (name : String) (s : K.State) → N.current (disable_ipv6_autoconf K name s).1 ≡ N.current s
  unfolding disable_ipv6_autoconf
  disable_ipv6_autoconf-current name s =
      let path = "/proc/sys/net/ipv6/conf/" <> (name <> "/autoconf") in
      let keeps = apply_sysctl_value-current path "0" s in
      elim (Result-cases (apply_sysctl_value K path "0" s).0) [
        | inl (_, q) ↦ ground (arith, q, keeps)
        | inr (e, q) ↦ elim (Bool-cases (is_ignored K e)) [
          | inl b ↦ ground (arith, q, b, keeps)
          | inr b ↦ ground (arith, q, b, keeps)
        ]
      ]

  join_netns-current :
      (fd : ℕ) (s : K.State) → (join_netns K fd s).0 ≡ ok tt → N.current (join_netns K fd s).1 ≡ fd
  unfolding join_netns
  join_netns-current fd s h = elim (Result-cases (K.setns fd s).0) [
    | inl (_, q) ↦ ground (arith, q, N.setns_law fd s)
    | inr (e, q) ↦ ground (arith, q, h)
  ]

  -- Where the code in the container's namespace gives its result as a value, the process is back
  -- in the namespace of the host, provided that it can enter both, whatever the result is.
  exec_netns-current :
      (host netns : ℕ) (exec : Action K.State Unit) (s : K.State)
      → (join_netns K netns s).0 ≡ ok tt
      → (join_netns K host (exec (join_netns K netns s).1).1).0 ≡ ok tt
      → N.current (exec_netns K host netns exec s).1 ≡ host
  unfolding exec_netns
  exec_netns-current host netns exec s enter leave =
      ground (arith, enter, leave, join_netns-current host (exec (join_netns K netns s).1).1 leave)

  -- The sysctls of the container, in their order.
  abbrev pub sysctls : TextLib → InternalData → Action K.State Unit
  sysctls text data_ =
      let name = data_.container_interface_name in
      disable_ipv6_autoconf K name
      >> when_ K text data_.ipam.ipv6_enabled
          (apply_sysctl K ("/proc/sys/net/ipv6/conf/" <> (name <> "/accept_dad")) "0")

  -- In the bridge driver a sysctl of the container that fails, that for autoconf or, where IPv6 is
  -- on, that for the detection of duplicate addresses, leaves the process in the container's
  -- namespace, which it had entered, and its error is the result: the step back into the host's is
  -- jumped over.
  pub in_container-current :
      (text : TextLib) (data_ : InternalData) (hostns_fd netns_fd : ℕ) (s : K.State)
      (e : NetavarkError)
      → (join_netns K netns_fd s).0 ≡ ok tt
      → (sysctls text data_ (join_netns K netns_fd s).1).0 ≡ err e
      → (in_container K text data_ hostns_fd netns_fd s).0 ≡ err e
        × (N.current (in_container K text data_ hostns_fd netns_fd s).1 ≡ netns_fd)
  unfolding in_container
  in_container-current text data_ hostns_fd netns_fd s e enter fails =
      let name = data_.container_interface_name in
      let t = (join_netns K netns_fd s).1 in
      let t' = (disable_ipv6_autoconf K name t).1 in
      let path = "/proc/sys/net/ipv6/conf/" <> (name <> "/accept_dad") in
      ground (
        arith,
        enter,
        fails,
        join_netns-current netns_fd s enter,
        disable_ipv6_autoconf-current name t,
        apply_sysctl-current path "0" t',
      )
