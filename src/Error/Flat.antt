-- ===== src/Error/Flat.antt =====
-- About the error list and the chains of src/error/mod.rs.
use netavark.Prelude.{String, ◌≡◌, refl, false, ok, err, arith}
use netavark.Error.{
  NetavarkResult, wrap, is_empty, NetavarkError, message, exit_code, chain, io, dbus, dbus_variant,
  sysctl, serde, netlink, dhcp_proxy, list, NetavarkErrorList, nil, cons, append_list, push, unwrap,
}

-- The error is no list.
abbrev pub IsSingle : NetavarkError → Type 0
IsSingle (list _) = ⊥
IsSingle _ = Unit

-- No error of the list is a list.
abbrev pub IsFlat : NetavarkErrorList → Type 0
IsFlat nil = Unit
IsFlat (cons e xs) = IsSingle e × IsFlat xs

-- The error is one that may be pushed: a list among errors has no list in it.
abbrev pub IsPushable : NetavarkError → Type 0
IsPushable (list xs) = IsFlat xs
IsPushable _ = Unit

pub append_list-IsFlat :
    (xs ys : NetavarkErrorList) → IsFlat xs → IsFlat ys → IsFlat (append_list xs ys)
append_list-IsFlat nil ys f g = g
append_list-IsFlat (cons x xs) ys f g = (f.0, append_list-IsFlat xs ys f.1 g)

-- Pushing an error that is no list, or a list with no list in it, onto a list with no list in it
-- leaves it so.
pub push-IsFlat :
    (xs : NetavarkErrorList) (e : NetavarkError) → IsFlat xs → IsPushable e → IsFlat (push xs e)
unfolding push
push-IsFlat xs (list ys) f g = append_list-IsFlat xs ys f g
push-IsFlat xs (message s) f g = append_list-IsFlat xs (cons (message s) nil) f (tt, tt)
push-IsFlat xs (exit_code s i) f g = append_list-IsFlat xs (cons (exit_code s i) nil) f (tt, tt)
push-IsFlat xs (chain s e) f g = append_list-IsFlat xs (cons (chain s e) nil) f (tt, tt)
push-IsFlat xs (io e) f g = append_list-IsFlat xs (cons (io e) nil) f (tt, tt)
push-IsFlat xs (dbus e) f g = append_list-IsFlat xs (cons (dbus e) nil) f (tt, tt)
push-IsFlat xs (dbus_variant e) f g = append_list-IsFlat xs (cons (dbus_variant e) nil) f (tt, tt)
push-IsFlat xs (sysctl e) f g = append_list-IsFlat xs (cons (sysctl e) nil) f (tt, tt)
push-IsFlat xs (serde e) f g = append_list-IsFlat xs (cons (serde e) nil) f (tt, tt)
push-IsFlat xs (netlink e) f g = append_list-IsFlat xs (cons (netlink e) nil) f (tt, tt)
push-IsFlat xs (dhcp_proxy e) f g = append_list-IsFlat xs (cons (dhcp_proxy e) nil) f (tt, tt)

abbrev pub IsChain : NetavarkError → Type 0
IsChain (chain _ _) = Unit
IsChain _ = ⊥

-- Unwrapping always ends at an error that is no chain.
unwrap_ends : (e : NetavarkError) → ¬ (IsChain (unwrap e))
unfolding unwrap
unwrap_ends (chain s e) h = unwrap_ends e h
unwrap_ends (message s) h = h
unwrap_ends _ h = h

-- A list that has an error keeps one when errors are pushed.
pub push_cons :
    (x : NetavarkError) (xs : NetavarkErrorList) (e : NetavarkError)
    → is_empty (push (cons x xs) e) ≡ false
unfolding push
push_cons x xs (list ys) = refl
push_cons x xs _ = refl

pub push-IsChain : (e : NetavarkError) → IsChain e → is_empty (push nil e) ≡ false
unfolding push
push-IsChain (chain s e) c = refl
push-IsChain (list xs) c = elim c [ ]
push-IsChain _ c = refl

-- An error that `wrap` made is a chain.
pub wrap-IsChain :
    {A : Type 0} (r : NetavarkResult A) (text : String) (e : NetavarkError)
    → wrap r text ≡ err e
    → IsChain e
wrap-IsChain (err e') text e h = ground (arith, h)
wrap-IsChain (ok a) text e h = ground (arith, h)
