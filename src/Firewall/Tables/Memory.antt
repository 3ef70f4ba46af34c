-- ===== src/Firewall/Tables/Memory.antt =====
-- Tables in memory, as an instance of what is assumed of `iptables`.
use netavark.Prelude.{
  suc, length, String, ◌≡◌, refl, Bool, true, false, ◌&&◌, List, [], ◌∷◌, ◌++◌, ok, err, is_ok,
  contains, str_eq, eq_iff, arith, if◌then◌else◌,
}
use netavark.Firewall.Tables.{
  Conn, Place, same_conn, same_place, Iptables, IsLawful, insert_at, remove_first,
}

pub record Memory : Type 0 where
  pub names : Conn → String → List String
  pub rules : Place → List String

abbrev erase_name : String → List String → List String
erase_name n [] = []
erase_name n (x ∷ xs) = let rest = erase_name n xs in if str_eq x n then rest else x ∷ rest

-- The rules with one chain changed.
abbrev at : Memory → Place → (List String → List String) → Memory
at s p f = record s { rules = λ q. if same_place p q then f (s.rules q) else s.rules q }

abbrev names_at : Memory → Place → (List String → List String) → Memory
names_at s p f = record s {
  names = λ c t. if same_conn p.driver c && str_eq p.table t then f (s.names c t) else s.names c t;
}

abbrev has_name : Memory → Place → Bool
has_name s p = contains p.chain (s.names p.driver p.table)

abbrev is_empty : List String → Bool
is_empty [] = true
is_empty (_ ∷ _) = false

abbrev pub memory_tables : Iptables
memory_tables = record {
  State = Memory;
  exists = λ p r s. ok (contains r (s.rules p));
  list = λ p s. ok (("-N " ∷ []) ++ s.rules p);
  list_chains = λ c t s. ok (s.names c t);
  append = λ p r s. (ok tt, at s p (λ xs. xs ++ (r ∷ [])));
  insert = λ p r n s. (ok tt, at s p (insert_at n r));
  delete = λ p r s.
      if contains r (s.rules p) then (ok tt, at s p (remove_first r)) else (err "no rule", s);
  new_chain = λ p s.
      if has_name s p then (err "chain exists", s) else (ok tt, names_at s p (λ xs. p.chain ∷ xs));
  delete_chain = λ p s.
      if is_empty (s.rules p)
      then (ok tt, names_at s p (erase_name p.chain))
      else (err "chain in use", s);
}

contains-erase_name :
    (x n : String) (xs : List String)
    → contains x (erase_name n xs) ≡ (if str_eq n x then false else contains x xs)
contains-erase_name x n [] = ground arith
contains-erase_name x n (y ∷ xs) =
    ground (arith, contains-erase_name x n xs, eq_iff y n, eq_iff n x, eq_iff y x)

pub rules-delete :
    (p q : Place) (r : String) (s : Memory)
    → let (result, s') = memory_tables.delete p r s in
      s'.rules q
      ≡ (if is_ok result && same_place p q then remove_first r (s.rules q) else s.rules q)
rules-delete p q r s = ground arith

pub rules-new_chain :
    (p q : Place) (s : Memory) → (memory_tables.new_chain p s).1.rules q ≡ s.rules q
rules-new_chain p q s = ground arith

pub rules-delete_chain :
    (p q : Place) (s : Memory) → (memory_tables.delete_chain p s).1.rules q ≡ s.rules q
rules-delete_chain p q s = ground arith

pub has_name-delete :
    (p q : Place) (r : String) (s : Memory)
    → has_name (memory_tables.delete p r s).1 q ≡ has_name s q
has_name-delete p q r s = ground arith

pub has_name-new_chain :
    (p q : Place) (s : Memory)
    → let (result, s') = memory_tables.new_chain p s in
      has_name s' q ≡ (if is_ok result && same_place p q then true else has_name s q)
has_name-new_chain p q s = ground arith

pub has_name-delete_chain :
    (p q : Place) (s : Memory)
    → let (result, s') = memory_tables.delete_chain p s in
      has_name s' q ≡ (if is_ok result && same_place p q then false else has_name s q)
has_name-delete_chain p q s =
    ground (arith, contains-erase_name q.chain p.chain (s.names q.driver q.table))

pub exists_contains :
    (p : Place) (r : String) (s : Memory) {b : Bool}
    → memory_tables.exists p r s ≡ ok b
    → b ≡ contains r (s.rules p)
exists_contains p r s e = cc

pub length-list :
    (p : Place) (s : Memory) {lines : List String}
    → memory_tables.list p s ≡ ok lines
    → length lines ≡ suc (length (s.rules p))
length-list p s e = ground arith

pub contains-list_chains :
    (p : Place) (s : Memory) {names : List String}
    → memory_tables.list_chains p.driver p.table s ≡ ok names
    → contains p.chain names ≡ has_name s p
contains-list_chains p s e = ground arith

abbrev pub memory_tables-IsLawful : IsLawful memory_tables
memory_tables-IsLawful = record {
  rules = λ s p. s.rules p;
  has_chain = has_name;
  exists_contains = exists_contains;
  length-list = length-list;
  contains-list_chains = contains-list_chains;
  rules-append = λ p q r s. refl;
  rules-insert = λ p q r n s. refl;
  rules-delete = rules-delete;
  rules-new_chain = rules-new_chain;
  rules-delete_chain = rules-delete_chain;
  has_chain-append = λ p q r s. refl;
  has_chain-insert = λ p q r n s. refl;
  has_chain-delete = has_name-delete;
  has_chain-new_chain = has_name-new_chain;
  has_chain-delete_chain = has_name-delete_chain;
}
