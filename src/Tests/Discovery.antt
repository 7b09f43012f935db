-- ===== src/Tests/Discovery.antt =====
-- One address, a device's name that holds an ampersand, and two services.
use phone_cam.Prelude.{
  ◌≡◌, refl, true, none, some, List, [], ◌∷◌, ◌++◌, ◌==◌, contains, if◌then◌else◌,
}
use phone_cam.Text.{Text}
use phone_cam.Text.Order.{text_eq, text_lt}
use phone_cam.Text.Split.{codes}
use phone_cam.Discovery.QrCode.{Addresses}
use phone_cam.Discovery.QrCode.Laws.{before_ampersand}
use phone_cam.Discovery.Label.{
  is_ascii_alphanumeric, label_loop, trim_start_matches, trim_end_matches, sanitize_dns_label,
  strip_suffix, instance_name_from_fullname, service_type,
}
use phone_cam.Discovery.Label.Laws.{IsDnsLabel, sanitize_dns_label-IsDnsLabel}
use phone_cam.Discovery.Services.{
  DiscoveredService, service_eq, ServiceInfo, Received, resolved, other_event, late, insert_new,
  insert_all, receive_all, insert_sorted, sort, discover,
}
use phone_cam.Discovery.Services.Found.{is_announced, IsAscending, discover-IsAscending}

abbrev host : Text
host = codes "192.168.0.42"

abbrev addresses : Addresses
addresses = record {
  IpAddr = Text;
  is_v4 = λ a. true;
  to_string = λ a. a;
  parse_socket = λ t. if t == (host ++ codes ":5555") then some (host, 5555) else none;
}

cut_name : before_ampersand (codes "Tom & Ann") ≡ codes "Tom "
cut_name = refl

sanitize_dns_label-IsDnsLabel_example : IsDnsLabel (sanitize_dns_label (codes "  Tom's Pixel 7!"))
sanitize_dns_label-IsDnsLabel_example = sanitize_dns_label-IsDnsLabel (codes "  Tom's Pixel 7!")

labels :
    (sanitize_dns_label (codes "  Tom's Pixel 7!") ≡ codes "tom-s-pixel-7")
    × (sanitize_dns_label (codes "!?") ≡ codes "phonecam")
unfolding sanitize_dns_label label_loop is_ascii_alphanumeric trim_start_matches trim_end_matches
labels = (refl, refl)

abbrev desk : ServiceInfo
desk = record {
  fullname = codes "desk." ++ service_type;
  addresses = codes "10.0.0.2" ∷ codes "10.0.0.1" ∷ [];
  port = 7878;
  version = some (codes "1");
}

abbrev desk_at : Text → DiscoveredService
desk_at address = record { name = codes "desk"; ip = address; port = 7878; version = codes "1" }

abbrev receives : List Received
receives = resolved desk ∷ other_event ∷ resolved desk ∷ late ∷ []

abbrev found : List DiscoveredService
found = desk_at (codes "10.0.0.1") ∷ desk_at (codes "10.0.0.2") ∷ []

finds : discover receives ≡ some found
unfolding discover receive_all insert_all insert_new contains sort insert_sorted text_lt
    instance_name_from_fullname strip_suffix trim_end_matches
finds = refl

discover-IsAscending_example :
    IsAscending found × ((x : DiscoveredService) → contains found x ≡ is_announced receives x)
discover-IsAscending_example = discover-IsAscending receives found finds
