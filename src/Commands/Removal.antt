-- ===== src/Commands/Removal.antt =====
-- About the loop of `teardown` over the networks.
use netavark.Prelude.{
  String, ◌≡◌, refl, Bool, true, false, ◌&&◌, [], ◌∷◌, err, is_ok, arith, Result-cases, inl, inr,
}
use netavark.Prelude.Dict.{Dict}
use netavark.Error.{
  NetavarkError, message, exit_code, chain, io, dbus, dbus_variant, sysctl, serde, netlink,
  dhcp_proxy, list, NetavarkErrorList, nil, cons, append_list, push, is_empty,
}
use netavark.Error.Flat.{IsFlat, IsPushable, push-IsFlat}
use netavark.Network.Types.{Network, NetworkOptions}
use netavark.Commands.{System, teardown_one, teardown_networks}

-- The error is not an empty list of errors.
abbrev pub is_something : NetavarkError → Bool
is_something (list nil) = false
is_something _ = true

is_empty-append_list :
    (xs ys : NetavarkErrorList) → is_empty (append_list xs ys) ≡ (is_empty xs && is_empty ys)
is_empty-append_list nil ys = refl
is_empty-append_list (cons x xs) ys = refl

-- A pushed error leaves the list with something in it.
is_empty-push :
    (xs : NetavarkErrorList) (e : NetavarkError)
    → is_something e ≡ true
    → is_empty (push xs e) ≡ false
unfolding push
is_empty-push nil (list nil) h = ground (arith, h)
is_empty-push nil (list (cons e ys)) h = refl
is_empty-push (cons x xs) (list ys) h = refl
is_empty-push nil (message _) h = refl
is_empty-push nil (exit_code _ _) h = refl
is_empty-push nil (chain _ _) h = refl
is_empty-push nil (io _) h = refl
is_empty-push nil (dbus _) h = refl
is_empty-push nil (dbus_variant _) h = refl
is_empty-push nil (sysctl _) h = refl
is_empty-push nil (serde _) h = refl
is_empty-push nil (netlink _) h = refl
is_empty-push nil (dhcp_proxy _) h = refl
is_empty-push (cons x xs) (message _) h = refl
is_empty-push (cons x xs) (exit_code _ _) h = refl
is_empty-push (cons x xs) (chain _ _) h = refl
is_empty-push (cons x xs) (io _) h = refl
is_empty-push (cons x xs) (dbus _) h = refl
is_empty-push (cons x xs) (dbus_variant _) h = refl
is_empty-push (cons x xs) (sysctl _) h = refl
is_empty-push (cons x xs) (serde _) h = refl
is_empty-push (cons x xs) (netlink _) h = refl
is_empty-push (cons x xs) (dhcp_proxy _) h = refl

module _ (T : System) (options : NetworkOptions) where
  -- The state after every network's teardown, in order, whatever the others did.
  abbrev pub after : Dict Network → T.State → T.State
  after [] s = s
  after ((name, network) ∷ networks) s = after networks (teardown_one T options name network s).1

  -- Whether every one of them succeeds.
  abbrev pub all_ok : Dict Network → T.State → Bool
  all_ok [] s = true
  all_ok ((name, network) ∷ networks) s =
      let (result, s') = teardown_one T options name network s in is_ok result && all_ok networks s'

  -- Where no failure of a teardown is an empty list of errors: whatever fails, the teardown of
  -- every network is tried, in order; and the errors are empty just if they were empty before and
  -- every teardown succeeds.
  pub teardown_networks_lem :
      (networks : Dict Network) (errors : NetavarkErrorList) (s : T.State)
      → ((name : String) (network : Network) (t : T.State) (e : NetavarkError)
          → (teardown_one T options name network t).0 ≡ err e
          → is_something e ≡ true)
      → ((teardown_networks T options networks errors s).1 ≡ after networks s)
        × (is_empty (teardown_networks T options networks errors s).0
            ≡ (is_empty errors && all_ok networks s))
  unfolding teardown_networks
  teardown_networks_lem [] errors s f = ground arith
  teardown_networks_lem ((name, network) ∷ networks) errors s f =
      let s' = (teardown_one T options name network s).1 in
      elim (Result-cases (teardown_one T options name network s).0) [
        | inl (u, h) ↦ ground (arith, h, teardown_networks_lem networks errors s' f)
        | inr (e, h) ↦ ground (
          arith,
          h,
          is_empty-push errors e (f name network s e h),
          teardown_networks_lem networks (push errors e) s' f,
        )
      ]

  -- Where the errors so far have no list within the list, and every failure of a teardown is one
  -- error or a list with no list in it, the errors have no list within the list after the loop.
  pub teardown_networks-IsFlat :
      (networks : Dict Network) (errors : NetavarkErrorList) (s : T.State)
      → ((name : String) (network : Network) (t : T.State) (e : NetavarkError)
          → (teardown_one T options name network t).0 ≡ err e
          → IsPushable e)
      → IsFlat errors
      → IsFlat (teardown_networks T options networks errors s).0
  unfolding teardown_networks
  teardown_networks-IsFlat [] errors s f flat = flat
  teardown_networks-IsFlat ((name, network) ∷ networks) errors s f flat =
      let s' = (teardown_one T options name network s).1 in
      elim (Result-cases (teardown_one T options name network s).0) [
        | inl (u, h) ↦
            rw (h, teardown_networks) (teardown_networks-IsFlat networks errors s' f flat)
        | inr (e, h) ↦
            rw (h, teardown_networks)
              (teardown_networks-IsFlat networks (push errors e) s' f
                (push-IsFlat errors e flat (f name network s e h)))
      ]
