-- ===== src/Network/Vlan/Creation.antt =====
-- About the creation of a vlan interface: after it, the interface is there under its own name.
use netavark.Prelude.{
  ℕ, zero, suc, String, ◌<>◌, ◌≡◌, refl, Bool, true, some, ok, err, inl, inr, arith, Result-cases,
}
use netavark.Error.{NetavarkResult}
use netavark.Network.Netlink.Types.{CreateLinkOptions, name_of}
use netavark.Network.Kernel.{Kernel, host_side, netns_side}
use netavark.Network.Vlan.Options.{KindData}
use netavark.Network.Vlan.Links.{rename_link, create_rounds, create}

-- What the kernel promises of the names in the namespace of the container: a link that is created
-- for the namespace has its name there, and so has a link that is renamed.
pub record LinkNames (K : Kernel) : Type 0 where
  pub has_link : String → K.State → Bool
  pub create_law :
      (opts : CreateLinkOptions) (fd : ℕ) (s : K.State)
      → opts.netns ≡ some fd
      → (K.create_link host_side opts s).0 ≡ ok tt
      → has_link opts.name (K.create_link host_side opts s).1 ≡ true
  pub rename_law :
      (index : ℕ) (name : String) (s : K.State)
      → (K.set_link_name netns_side index name s).0 ≡ ok tt
      → has_link name (K.set_link_name netns_side index name s).1 ≡ true

module _ (K : Kernel) (N : LinkNames K) (random : ℕ → String) (kind : KindData) where
  rename_link-has :
      (tmp name : String) (s : K.State)
      → (rename_link K kind tmp name s).0 ≡ ok tt
      → N.has_link name (rename_link K kind tmp name s).1 ≡ true
  unfolding rename_link
  rename_link-has tmp name s h = elim (Result-cases (K.get_link netns_side (name_of tmp) s).0) [
    | inr (e, q) ↦ ground (arith, q, h)
    | inl (found, q) ↦
        let t = (K.get_link netns_side (name_of tmp) s).1 in
        ground (arith, q, h, N.rename_law found.index name t)
  ]

  create_rounds-has :
      (later : ℕ) (opts : CreateLinkOptions) (result : NetavarkResult Unit) (s : K.State)
      → (result ≡ ok tt → N.has_link opts.name s ≡ true)
      → (create_rounds K (suc later) random kind opts result s).0 ≡ ok tt
      → N.has_link opts.name (create_rounds K (suc later) random kind opts result s).1 ≡ true
  unfolding create_rounds
  create_rounds-has later opts (ok _) s there h = there refl
  create_rounds-has zero opts (err e) s there h =
      let tmp = "mv-" <> random zero in
      let t = K.create_link host_side (record opts { name = tmp }) s in
      elim (Result-cases t.0) [
        | inl (_, made) ↦ ground (arith, made, h, rename_link-has tmp opts.name t.1)
        | inr (_, failed) ↦ ground (arith, failed, h)
      ]
  create_rounds-has (suc later) opts (err e) s there h =
      let tmp = "mv-" <> random (suc later) in
      let t = K.create_link host_side (record opts { name = tmp }) s in
      elim (Result-cases t.0) [
        | inl (_, made) ↦ ground (arith, made, h, rename_link-has tmp opts.name t.1)
        | inr (e', failed) ↦
            let next = create_rounds-has later opts (err e') t.1 (λ q. ground (arith, q)) in
            ground (arith, failed, h, next)
      ]

  -- If the creation of an interface for the container's namespace succeeds, the namespace has a
  -- link of the interface's name, whatever the random names are and however often the name was
  -- taken on the host: the rounds never run out with a result that is not looked at.
  pub create_lem :
      (opts : CreateLinkOptions) (fd : ℕ) (s : K.State)
      → opts.netns ≡ some fd
      → (create K random kind opts s).0 ≡ ok tt
      → N.has_link opts.name (create K random kind opts s).1 ≡ true
  unfolding create
  create_lem opts fd s net h =
      let made = K.create_link host_side opts s in
      create_rounds-has 2 opts made.0 made.1 (N.create_law opts fd s net) h
