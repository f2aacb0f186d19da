-- ===== src/Iso/Media/Tests.antt =====
-- An image for the server of a session.
use kvm_switcher.Prelude.{
  refl, ◌≡◌, contains, lookup, pos, Option, String, [], ◌∷◌, none, some, true, false,
}
use kvm_switcher.Iso.Media.{
  done, media_creds, resolve_virtual_media, MediaRequest, virtual_media_mount, supported,
}
use kvm_switcher.Api.{log_audit, find_server, ApiServer}
use kvm_switcher.Store.Memory.{get, memory_store}
use kvm_switcher.Iso.Media.Outcomes.{virtual_media_mount-Outcome, Mounts, Outcome}
use kvm_switcher.Api.Sample.{sample}

abbrev logged_in : ApiServer memory_store
logged_in = record sample {
  proxies =
      (
        "rack-1",
        record {
          bmc_creds = some (record {
            session_cookie = "c";
            csrf_token = "";
            kvm_token = "";
            web_cookie = "";
            username = "root";
            privilege = pos 4;
            extended_priv = pos 0;
            extra = [];
          });
          kvm_active = false;
        },
      )
      ∷ [];
}

abbrev scheme : String → Option String
scheme url = some "nfs"

abbrev by_user : MediaRequest
by_user = record {
  user = none;
  remote_addr = "10.1.1.1:4000";
  ip = "10.1.1.1";
  board_agrees = true;
}

mounted_url :
    (virtual_media_mount memory_store
      (λ t. supported)
      scheme
      "s1"
      (some "nfs://10.0.0.2/linux.iso")
      by_user
      logged_in).1
    ≡ done "nfs://10.0.0.2/linux.iso"
unfolding virtual_media_mount resolve_virtual_media media_creds get find_server lookup contains
    log_audit
mounted_url = refl

virtual_media_mount-Outcome_example :
    Outcome memory_store
      (λ t. supported)
      "s1"
      "virtual_media_mount"
      (Mounts memory_store (λ t. supported) "s1" scheme (some "nfs://10.0.0.2/linux.iso"))
      by_user
      logged_in
      (virtual_media_mount memory_store
        (λ t. supported)
        scheme
        "s1"
        (some "nfs://10.0.0.2/linux.iso")
        by_user
        logged_in)
virtual_media_mount-Outcome_example =
    virtual_media_mount-Outcome memory_store (λ t. supported) "s1" scheme
      (some "nfs://10.0.0.2/linux.iso") by_user logged_in
