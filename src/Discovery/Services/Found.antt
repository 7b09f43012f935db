-- ===== src/Discovery/Services/Found.antt =====
-- What `discover` returns.
use phone_cam.Prelude.{
  ◌≡◌, refl, sym, ap, ◌∙◌, arith, Bool, true, false, ◌||◌, some, List, [], ◌∷◌, ◌==◌, nat_eq,
  contains, Bool-cases, Option-cases, inl, inr,
}
use phone_cam.Text.{Text}
use phone_cam.Text.Order.{text_eq, text_lt_total, text_beq_comm}
use phone_cam.Discovery.Services.{
  DiscoveredService, service_eq, service_beq_iff, ServiceInfo, Received, resolved, other_event,
  closed, late, service_at, insert_new, insert_all, receive_all, precedes, insert_sorted, sort,
  discover,
}

-- A service is among those of the addresses of a resolved one.
abbrev pub is_at : ServiceInfo → List Text → DiscoveredService → Bool
is_at s [] x = false
is_at s (address ∷ more) x = x == service_at s address || is_at s more x

-- A service was resolved before the time was over.
abbrev pub is_announced : List Received → DiscoveredService → Bool
is_announced [] x = false
is_announced (resolved s ∷ more) x = is_at s s.addresses x || is_announced more x
is_announced (other_event ∷ more) x = is_announced more x
is_announced (closed ∷ more) x = false
is_announced (late ∷ more) x = false

abbrev IsBelowFirst : DiscoveredService → List DiscoveredService → Type 0
IsBelowFirst s [] = Unit {0}
IsBelowFirst s (t ∷ ts) = precedes s t ≡ true

-- Each service precedes the next.
abbrev pub IsAscending : List DiscoveredService → Type 0
IsAscending [] = Unit {0}
IsAscending (s ∷ ss) = IsBelowFirst s ss × IsAscending ss

abbrev IsDistinct : List DiscoveredService → Type 0
IsDistinct [] = Unit {0}
IsDistinct (s ∷ ss) = (contains ss s ≡ false) × IsDistinct ss

or_left : (a b c : Bool) → (a || (b || c)) ≡ (b || (a || c))
or_left a b c = ground arith

neither : (a b : Bool) → (a || b) ≡ false → (a ≡ false) × (b ≡ false)
neither a b h = (ground arith, ground arith)

precedes_total :
    (s t : DiscoveredService) → (s == t) ≡ false → precedes t s ≡ false → precedes s t ≡ true
precedes_total s t h k =
    let n = text_lt_total t.name s.name in
    let i = text_lt_total t.ip s.ip in
    let v = text_lt_total t.version s.version in
    let p = text_beq_comm t.name s.name in
    let q = text_beq_comm t.ip s.ip in let r = text_beq_comm t.version s.version in ground arith

contains-insert_sorted :
    (s : DiscoveredService) (l : List DiscoveredService) (x : DiscoveredService)
    → contains (insert_sorted s l) x ≡ (x == s || contains l x)
unfolding insert_sorted contains
contains-insert_sorted s [] x = refl
contains-insert_sorted s (t ∷ ts) x = elim (Bool-cases (precedes t s)) [
  | inr h ↦ rw h refl
  | inl h ↦ rw (h, contains-insert_sorted s ts x) (or_left (x == t) (x == s) (contains ts x))
]

contains-sort :
    (l : List DiscoveredService) (x : DiscoveredService) → contains (sort l) x ≡ contains l x
unfolding sort contains
contains-sort [] x = refl
contains-sort (s ∷ l) x =
    contains-insert_sorted s (sort l) x ∙ ap (λ b. x == s || b) (contains-sort l x)

below-insert :
    (t s : DiscoveredService) (l : List DiscoveredService)
    → IsBelowFirst t l
    → precedes t s ≡ true
    → IsBelowFirst t (insert_sorted s l)
unfolding insert_sorted
below-insert t s [] b p = p
below-insert t s (u ∷ l) b p = elim (Bool-cases (precedes u s)) [
  | inl h ↦ rw (h, IsBelowFirst) b
  | inr h ↦ rw (h, IsBelowFirst) p
]

insert-IsAscending :
    (s : DiscoveredService) (l : List DiscoveredService)
    → contains l s ≡ false
    → IsAscending l
    → IsAscending (insert_sorted s l)
unfolding insert_sorted contains
insert-IsAscending s [] c a = (tt, tt)
insert-IsAscending s (t ∷ l) c a = elim (Bool-cases (precedes t s)) [
  | inl h ↦
      rw (h, IsAscending)
        (
          below-insert t s l a.0 h,
          insert-IsAscending s l (((neither (s == t) (contains l s) c).1)) a.1,
        )
  | inr h ↦ rw (h, IsAscending) (precedes_total s t (((neither (s == t) (contains l s) c).0)) h, a)
]

sort-IsAscending : (l : List DiscoveredService) → IsDistinct l → IsAscending (sort l)
unfolding sort
sort-IsAscending [] d = tt
sort-IsAscending (s ∷ l) d =
    insert-IsAscending s (sort l) (contains-sort l s ∙ d.0) (sort-IsAscending l d.1)

unwrap : {A : Type 0} {a b : A} → some a ≡ some b → a ≡ b
unwrap h = ground arith

-- What a set became: its services are the old ones and some new ones, each once.
record Grown (old new : List DiscoveredService) (added : DiscoveredService → Bool) : Type 0 where
  contents : (x : DiscoveredService) → contains new x ≡ (contains old x || added x)
  distinct : IsDistinct new

insert_new-Grown :
    (s : DiscoveredService) (set : List DiscoveredService)
    → IsDistinct set
    → Grown set (insert_new s set) (λ x. x == s)
unfolding insert_new contains
insert_new-Grown s set d = elim (Bool-cases (contains set s)) [
  | inl h ↦ rw h (record { contents = λ x. present s x set h; distinct = d })
  | inr h ↦ rw h (record { contents = λ x. ground arith; distinct = (h, d) })
]
  where
    present :
        (s x : DiscoveredService) (set : List DiscoveredService)
        → contains set s ≡ true
        → contains set x ≡ (contains set x || x == s)
    present s x set h = elim (Bool-cases (x == s)) [
      | inl e ↦
          let same = (service_beq_iff x s).0 e in
          let k : contains set x ≡ true = ap (contains set) same ∙ h in ground arith
      | inr e ↦ ground arith
    ]

insert_all-Grown :
    (s : ServiceInfo) (addresses : List Text) (set : List DiscoveredService)
    → IsDistinct set
    → Grown set (insert_all s addresses set) (is_at s addresses)
unfolding insert_all
insert_all-Grown s [] set d = record { contents = λ x. ground arith; distinct = d }
insert_all-Grown s (a ∷ more) set d =
    let one = insert_new-Grown (service_at s a) set d in
    let all = insert_all-Grown s more (insert_new (service_at s a) set) one.distinct in
    record {
      contents = λ x. let p = one.contents x in let q = all.contents x in ground arith;
      distinct = all.distinct;
    }

receive_all-Grown :
    (receives : List Received) (set new : List DiscoveredService)
    → IsDistinct set
    → receive_all receives set ≡ some new
    → Grown set new (is_announced receives)
unfolding receive_all
receive_all-Grown [] set new d h =
    rw (sym (unwrap h)) (record { contents = λ x. ground arith; distinct = d })
receive_all-Grown (resolved s ∷ more) set new d h =
    let one = insert_all-Grown s s.addresses set d in
    let all = receive_all-Grown more (insert_all s s.addresses set) new one.distinct h in
    record {
      contents = λ x. let p = one.contents x in let q = all.contents x in ground arith;
      distinct = all.distinct;
    }
receive_all-Grown (other_event ∷ more) set new d h = receive_all-Grown more set new d h
receive_all-Grown (closed ∷ more) set new d h = cc
receive_all-Grown (late ∷ more) set new d h =
    rw (sym (unwrap h)) (record { contents = λ x. ground arith; distinct = d })

-- If the search ends well, its result holds exactly the services that were resolved before the time
-- was over, one for each address, each once and in ascending order.
pub discover-IsAscending :
    (receives : List Received) (found : List DiscoveredService)
    → discover receives ≡ some found
    → IsAscending found × ((x : DiscoveredService) → contains found x ≡ is_announced receives x)
unfolding discover contains
discover-IsAscending receives found h = elim (Option-cases (receive_all receives [])) [
  | inl e ↦ absurd (ground arith)
  | inr (set, e) ↦
      let g = receive_all-Grown receives [] set tt e in
      let same : sort set ≡ found = ground arith in
      rw (sym same) (sort-IsAscending set g.distinct, λ x. contains-sort set x ∙ g.contents x)
]
