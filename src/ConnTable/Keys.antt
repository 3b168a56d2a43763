-- ===== src/ConnTable/Keys.antt =====
-- The keys of the table: their test is equality, and the entries of other keys are left alone.
use tapgres.Prelude.{
  ◌≡◌, refl, sym, ap, subst, Bool, true, false, ◌&&◌, some, [], ◌∷◌, arith, ◌==◌, ==_refl, ==_iff,
  if◌then◌else◌, inl, inr, Bool-cases,
}
use tapgres.Net.{IpAddr, v4, v6}
use tapgres.Event.{Text, SocketAddr}
use tapgres.Filter.{ip_eq, text_eq}
use tapgres.Connection.{Connection}
use tapgres.ConnTable.{ConnKey, Entries, addr_eq, key_eq, get, insert, remove}

text_eq_refl : (t : Text) → text_eq t t ≡ true
unfolding text_eq
text_eq_refl [] = refl
text_eq_refl (c ∷ t) = rw (==_refl c) (text_eq_refl t)

text_eq→eq : (s t : Text) → text_eq s t ≡ true → s ≡ t
unfolding text_eq
text_eq→eq [] [] e = refl
text_eq→eq [] (d ∷ t) e = cc
text_eq→eq (c ∷ s) [] e = cc
text_eq→eq (c ∷ s) (d ∷ t) e =
    let h : c ≡ d = ground (arith, e) in let r : s ≡ t = text_eq→eq s t (ground (arith, e)) in cc

ip_eq_refl : (a : IpAddr) → ip_eq a a ≡ true
unfolding ip_eq
ip_eq_refl (v4 a b c d) = rw (==_refl a) (rw (==_refl b) (rw (==_refl c) (==_refl d)))
ip_eq_refl (v6 x) = text_eq_refl x

ip_eq→eq : (a b : IpAddr) → ip_eq a b ≡ true → a ≡ b
unfolding ip_eq
ip_eq→eq (v4 a b c d) (v4 i j k l) e =
    let p : a ≡ i = ground (arith, e) in
    let q : b ≡ j = ground (arith, e) in
    let r : c ≡ k = ground (arith, e) in let s : d ≡ l = ground (arith, e) in cc
ip_eq→eq (v4 a b c d) (v6 y) e = cc
ip_eq→eq (v6 x) (v4 i j k l) e = cc
ip_eq→eq (v6 x) (v6 y) e = ap (λ t. v6 t) (text_eq→eq x y e)

and-left : (a b : Bool) → (a && b) ≡ true → a ≡ true
and-left true b e = refl
and-left false b e = e

and-right : (a b : Bool) → (a && b) ≡ true → b ≡ true
and-right true b e = e
and-right false b e = cc

addr_eq_refl : (a : SocketAddr) → addr_eq a a ≡ true
addr_eq_refl a = rw (ip_eq_refl a.ip) (==_refl a.port)

addr_eq→eq : (a b : SocketAddr) → addr_eq a b ≡ true → a ≡ b
addr_eq→eq a b e =
    let p = ip_eq→eq a.ip b.ip (and-left (ip_eq a.ip b.ip) (a.port == b.port) e) in
    let q : a.port ≡ b.port =
      (==_iff a.port b.port).0 (and-right (ip_eq a.ip b.ip) (a.port == b.port) e) in
    λ i. record { ip = p i; port = q i }

pub key_eq_refl : (k : ConnKey) → key_eq k k ≡ true
key_eq_refl k = rw (addr_eq_refl k.client) (addr_eq_refl k.server)

pub key_eq→eq : (j k : ConnKey) → key_eq j k ≡ true → j ≡ k
key_eq→eq j k e =
    let p =
      addr_eq→eq j.client k.client
        (and-left (addr_eq j.client k.client) (addr_eq j.server k.server) e) in
    let q =
      addr_eq→eq j.server k.server
        (and-right (addr_eq j.client k.client) (addr_eq j.server k.server) e) in
    λ i. record { client = p i; server = q i }

pub get-insert_same : (k : ConnKey) (c : Connection) (m : Entries) → get k (insert k c m) ≡ some c
unfolding get insert
get-insert_same k c [] = rw (key_eq_refl k) refl
get-insert_same k c ((j, d) ∷ m) = elim (Bool-cases (key_eq j k)) [
  | inl e ↦ rw e (rw e refl)
  | inr e ↦ rw e (rw e (get-insert_same k c m))
]

module _ (key k : ConnKey) (other : key_eq key k ≡ false) where
  differs : (j : ConnKey) → key_eq j key ≡ true → key_eq j k ≡ false
  differs j e = subst (λ x. key_eq x k ≡ false) (sym (key_eq→eq j key e)) other

  pub get-insert_other : (c : Connection) (m : Entries) → get k (insert key c m) ≡ get k m
  unfolding get insert
  get-insert_other c [] = rw other refl
  get-insert_other c ((j, d) ∷ m) = elim (Bool-cases (key_eq j key)) [
    | inl e ↦ rw e (rw (differs j e) refl)
    | inr e ↦ rw e (ap (λ r. if key_eq j k then some d else r) (get-insert_other c m))
  ]

  pub get-remove_other : (m : Entries) → get k (remove key m) ≡ get k m
  unfolding get remove
  get-remove_other [] = refl
  get-remove_other ((j, d) ∷ m) = elim (Bool-cases (key_eq j key)) [
    | inl e ↦ rw e (rw (differs j e) refl)
    | inr e ↦ rw e (ap (λ r. if key_eq j k then some d else r) (get-remove_other m))
  ]
