-- ===== src/Firewall/Firewalld/Zones/Sources.antt =====
-- About `add_source_subnets_to_zone`: the subnets that are in the zone after it.
use netavark.Prelude.{
  String, ◌≡◌, refl, true, false, ◌&&◌, List, [], ◌∷◌, ◌++◌, ok, err, is_ok, contains, str_eq,
  eq_iff, eq_refl, inl, inr, arith, if◌then◌else◌, Result-cases,
}
use netavark.Network.Types.{Subnet}
use netavark.Network.Text.{AddrText}
use netavark.Firewall.Bus.{Bus}
use netavark.Firewall.Firewalld.Zones.{add_source_subnets_to_zone}

-- What is assumed of firewalld: which zone a source is in, and that a command which fails
-- changes no zone.
pub record HasZones (B : Bus) : Type 0 where
  pub zone_of : B.State → String → String
  pub get_zone_of_source-zone_of :
      (source : String) (s : B.State) {zone : String}
      → B.get_zone_of_source source s ≡ ok (ok zone)
      → zone ≡ zone_of s source
  pub zone_of-change_zone_of_source :
      (zone source q : String) (s : B.State)
      → let (result, s') = B.change_zone_of_source zone source s in
        zone_of s' q ≡ (if is_ok result && str_eq source q then zone else zone_of s q)

module _ (B : Bus) (L : HasZones B) (text : AddrText) (zone : String) where
  abbrev pub source : Subnet → String
  source net = text.show_net net.subnet

  abbrev pub sources : List Subnet → List String
  sources [] = []
  sources (net ∷ nets) = source net ∷ sources nets

  -- No subnet is in the zone, or listed twice.
  abbrev pub IsFresh : B.State → List Subnet → Type 0
  IsFresh s [] = Unit
  IsFresh s (net ∷ nets) =
      ((str_eq (L.zone_of s (source net)) zone ≡ false)
        × (contains (source net) (sources nets) ≡ false))
      × IsFresh s nets

  change-IsFresh :
      (q : String) (s : B.State) (nets : List Subnet)
      → contains q (sources nets) ≡ false
      → IsFresh s nets
      → IsFresh (B.change_zone_of_source zone q s).1 nets
  change-IsFresh q s [] h f = tt
  change-IsFresh q s (net ∷ nets) h f = (
    (
      ground (
        arith,
        f.0.0,
        L.zone_of-change_zone_of_source zone q (source net) s,
        eq_iff q (source net),
        eq_iff (source net) q,
      ),
      f.0.1,
    ),
    change-IsFresh q s nets (ground arith) f.1,
  )

  -- Of subnets that are listed once, and of which none is in the zone, a call that succeeds puts
  -- all into the zone, and moves no other source.
  pub add_source_subnets_to_zone_lem :
      (q : String) (nets : List Subnet) (s : B.State)
      → IsFresh s nets
      → is_ok (add_source_subnets_to_zone B text zone nets s).0 ≡ true
      → L.zone_of (add_source_subnets_to_zone B text zone nets s).1 q
        ≡ (if contains q (sources nets) then zone else L.zone_of s q)
  unfolding add_source_subnets_to_zone
  add_source_subnets_to_zone_lem q [] s f h = refl
  add_source_subnets_to_zone_lem q (net ∷ nets) s f h =
      let s' = (B.change_zone_of_source zone (source net) s).1 in
      elim (Result-cases (B.get_zone_of_source (source net) s)) [
        | inl (ok z, e) ↦ ground (
          arith,
          e,
          L.get_zone_of_source-zone_of (source net) s e,
          L.zone_of-change_zone_of_source zone (source net) q s,
          add_source_subnets_to_zone_lem q nets s' (change-IsFresh (source net) s nets f.0.1 f.1),
        )
        | inl (err x, e) ↦ ground (arith, e)
        | inr (x, e) ↦ ground (arith, e)
      ]

  -- The subnets behind one that is in the zone already are left out: the state is the one that is
  -- reached without that subnet and them.
  pub ignored_behind :
      (net : Subnet) (before behind : List Subnet) (s : B.State)
      → L.zone_of s (source net) ≡ zone
      → (add_source_subnets_to_zone B text zone (before ++ (net ∷ behind)) s).1
        ≡ (add_source_subnets_to_zone B text zone before s).1
  unfolding add_source_subnets_to_zone
  ignored_behind net [] behind s h = elim (Result-cases (B.get_zone_of_source (source net) s)) [
    | inl (ok z, e) ↦ ground (arith, e, L.get_zone_of_source-zone_of (source net) s e, eq_refl zone)
    | inl (err x, e) ↦ ground (arith, e)
    | inr (x, e) ↦ ground (arith, e)
  ]
  ignored_behind net (b ∷ before) behind s h =
      let s' = (B.change_zone_of_source zone (source b) s).1 in
      elim (Result-cases (B.get_zone_of_source (source b) s)) [
        | inl (ok z, e) ↦ ground (
          arith,
          e,
          ignored_behind net before behind s'
              (ground (arith, h, L.zone_of-change_zone_of_source zone (source b) (source net) s)),
        )
        | inl (err x, e) ↦ ground (arith, e)
        | inr (x, e) ↦ ground (arith, e)
      ]
