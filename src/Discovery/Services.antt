-- ===== src/Discovery/Services.antt =====
-- The services that were found: the loop of `ServiceBrowser::discover` and what it makes of a service
-- (rust/phonecam-discovery/src/lib.rs).
pub mod Found
use phone_cam.Prelude.{
  ℕ, Bool, true, false, ◌&&◌, ◌||◌, not, Option, none, some, List, [], ◌∷◌, ◌++◌, map, Result, ok,
  err, ltb, ◌==◌, PartialEq, nat_eq, contains, if◌then◌else◌, ◌≡◌, ◌↔◌, ap, arith,
}
use phone_cam.Text.{Text}
use phone_cam.Text.Order.{text_eq, text_beq, text_beq_iff, text_lt}
use phone_cam.Text.Split.{codes}
use phone_cam.Text.Numbers.{show_nat}
use phone_cam.Discovery.Label.{instance_name_from_fullname}

-- A service; its address is kept as its text, which tells addresses apart.
pub record DiscoveredService : Type 0 where
  pub name : Text
  pub ip : Text
  pub port : ℕ
  pub version : Text

abbrev pub service_beq : DiscoveredService → DiscoveredService → Bool
service_beq a b = a.name == b.name && (a.ip == b.ip && (a.port == b.port && a.version == b.version))

pub service_beq_iff : (a b : DiscoveredService) → (service_beq a b ≡ true) ↔ (a ≡ b)
service_beq_iff a b =
    let n = text_beq_iff a.name b.name in
    let i = text_beq_iff a.ip b.ip in
    let v = text_beq_iff a.version b.version in
    (
      λ h. ground (arith, n.0, i.0, v.0),
      λ h. ground (
        arith,
        n.1 (ap (λ s. s.name) h),
        i.1 (ap (λ s. s.ip) h),
        v.1 (ap (λ s. s.version) h),
        ap (λ s. s.port) h,
      ),
    )

instance abbrev pub service_eq : PartialEq DiscoveredService
service_eq = record { same = service_beq; same_iff = service_beq_iff }

-- What the daemon resolved: `ServiceInfo`, as far as it is read.
pub record ServiceInfo : Type 0 where
  pub fullname : Text
  pub addresses : List Text
  pub port : ℕ
  pub version : Option Text  -- the value of the property

-- What `timeout(remaining, recv_async())` gives. `late` is its time-out; before the call the loop may
-- also find that no time remains, which ends it in the same way.
pub data Received : Type 0 where
  resolved : ServiceInfo → Received
  other_event : Received
  closed : Received
  late : Received

abbrev version_of : Option Text → Text
version_of none = []
version_of (some v) = v

abbrev service_at : ServiceInfo → Text → DiscoveredService
service_at s address = record {
  name = instance_name_from_fullname s.fullname;
  ip = address;
  port = s.port;
  version = version_of s.version;
}

-- `HashSet::insert`
unfoldable pub insert_new : DiscoveredService → List DiscoveredService → List DiscoveredService
insert_new s set = if contains set s then set else s ∷ set

unfoldable pub insert_all :
    ServiceInfo → List Text → List DiscoveredService → List DiscoveredService
unfolding insert_new
insert_all s [] set = set
insert_all s (address ∷ more) set = insert_all s more (insert_new (service_at s address) set)

-- The loop, with what it receives: `none` is the closed channel.
unfoldable pub receive_all :
    List Received → List DiscoveredService → Option (List DiscoveredService)
unfolding insert_all
receive_all [] set = some set
receive_all (resolved s ∷ more) set = receive_all more (insert_all s s.addresses set)
receive_all (other_event ∷ more) set = receive_all more set
receive_all (closed ∷ more) set = none
receive_all (late ∷ more) set = some set

-- The order of the result: by name, address, port and version.
abbrev pub precedes : DiscoveredService → DiscoveredService → Bool
precedes a b =
    text_lt a.name b.name
    || a.name == b.name
      && (text_lt a.ip b.ip
          || a.ip == b.ip && (ltb a.port b.port || a.port == b.port && text_lt a.version b.version))

unfoldable pub insert_sorted : DiscoveredService → List DiscoveredService → List DiscoveredService
insert_sorted s [] = s ∷ []
insert_sorted s (t ∷ ts) =
    let later = insert_sorted s ts in if precedes t s then t ∷ later else s ∷ t ∷ ts

-- `sort_unstable_by`; services that compare as equal are equal.
unfoldable pub sort : List DiscoveredService → List DiscoveredService
unfolding insert_sorted
sort [] = []
sort (s ∷ ss) = insert_sorted s (sort ss)

unfoldable pub discover : List Received → Option (List DiscoveredService)
unfolding receive_all sort
discover receives = elim (receive_all receives []) [ none ↦ none | some set ↦ some (sort set) ]
