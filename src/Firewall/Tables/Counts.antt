-- ===== src/Firewall/Tables/Counts.antt =====
-- About the counts of a rule in a chain under the changes that `iptables` makes.
use netavark.Prelude.{
  ℕ, zero, suc, ◌+◌, ◌-◌, String, ◌≡◌, refl, true, ◌&&◌, List, [], ◌∷◌, ◌++◌, is_ok, take, drop,
  contains, str_eq, eq_iff, ltb, arith, if◌then◌else◌,
}
use netavark.Firewall.Tables.{
  Conn, conn, conn6, Place, same_conn, same_place, Iptables, IsLawful, count, insert_at,
  remove_first,
}

pub contains-eq-count : (r : String) (xs : List String) → contains r xs ≡ ltb 0 (count r xs)
contains-eq-count r [] = refl
contains-eq-count r (x ∷ xs) = ground (arith, contains-eq-count r xs)

pub count-append : (r : String) (xs ys : List String) → count r (xs ++ ys) ≡ count r xs + count r ys
count-append r [] ys = omega arith
count-append r (x ∷ xs) ys = ground (arith, count-append r xs ys)

count-take-drop :
    (r : String) (n : ℕ) (xs : List String) → count r (take n xs) + count r (drop n xs) ≡ count r xs
count-take-drop r zero xs = omega arith
count-take-drop r (suc n) [] = omega arith
count-take-drop r (suc n) (x ∷ xs) = ground (arith, count-take-drop r n xs)

pub count-insert_at :
    (x r : String) (n : ℕ) (xs : List String)
    → count x (insert_at n r xs) ≡ count x xs + count x (r ∷ [])
count-insert_at x r n xs =
    ground
      (arith, count-append x (take (n - 1) xs) (r ∷ drop (n - 1) xs), count-take-drop x (n - 1) xs)

pub count-remove_first :
    (x r : String) (xs : List String)
    → count x (remove_first r xs) ≡ (if str_eq r x then count x xs - 1 else count x xs)
count-remove_first x r [] = ground arith
count-remove_first x r (y ∷ xs) =
    ground (arith, count-remove_first x r xs, eq_iff y r, eq_iff r x, eq_iff y x)

same_conn→eq : (c d : Conn) → same_conn c d ≡ true → c ≡ d
same_conn→eq conn conn h = refl
same_conn→eq conn conn6 h = cc
same_conn→eq conn6 conn h = cc
same_conn→eq conn6 conn6 h = refl

pub same_place→eq : (p q : Place) → same_place p q ≡ true → p ≡ q
same_place→eq p q h =
    ground (arith, same_conn→eq p.driver q.driver, eq_iff p.table q.table, eq_iff p.chain q.chain)

module _ (T : Iptables) (L : IsLawful T) (q : Place) (x : String) where
  -- How often the chain `q` holds the rule `x`.
  abbrev pub tally : T.State → ℕ
  tally s = count x (L.rules s q)

  pub tally-append :
      (p : Place) (r : String) (s : T.State)
      → let (result, s') = T.append p r s in
        tally s' ≡ (if is_ok result && (same_place p q && str_eq r x) then tally s + 1 else tally s)
  tally-append p r s =
      rw (L.rules-append p q r s) (ground (arith, count-append x (L.rules s q) (r ∷ [])))

  pub tally-insert :
      (p : Place) (r : String) (n : ℕ) (s : T.State)
      → let (result, s') = T.insert p r n s in
        tally s' ≡ (if is_ok result && (same_place p q && str_eq r x) then tally s + 1 else tally s)
  tally-insert p r n s =
      rw (L.rules-insert p q r n s) (ground (arith, count-insert_at x r n (L.rules s q)))

  pub tally-delete :
      (p : Place) (r : String) (s : T.State)
      → let (result, s') = T.delete p r s in
        tally s' ≡ (if is_ok result && (same_place p q && str_eq r x) then tally s - 1 else tally s)
  tally-delete p r s =
      rw (L.rules-delete p q r s) (ground (arith, count-remove_first x r (L.rules s q)))
