-- ===== src/Api/Viewing/Tests.antt =====
-- A request for control and its acceptance at a concrete session with two viewers.
use kvm_switcher.Api.Sample.{sample, session}
use kvm_switcher.Prelude.{[], false, refl, some, ◌∷◌, Bool, ◌≡◌, true, none, lookup, String}
use kvm_switcher.Api.Viewing.TakenOver.{accept_viewer_request-request}
use kvm_switcher.Api.{ApiServer}
use kvm_switcher.Api.Viewing.{request_viewer_control, accept_viewer_request, Caller}
use kvm_switcher.Viewers.{Viewer, Registry}
use kvm_switcher.Store.Memory.{memory_store}
use kvm_switcher.Store.Memory.{get}

abbrev viewer : String → String → Bool → Viewer
viewer id name control = record {
  id = id;
  display_name = name;
  ip = "10.1.1.1";
  has_control = control;
  connected_at = 1;
}

abbrev registry : Registry
registry = record {
  viewers = ("v1", viewer "v1" "a" true) ∷ ("v2", viewer "v2" "b" false) ∷ [];
  controller = "v1";
  order = "v1" ∷ "v2" ∷ [];
  pending = none;
  timer = none;
}

abbrev watched : ApiServer memory_store
watched = record sample { viewer_registries = ("s1", registry) ∷ [] }

abbrev second : Caller
second = record { user = none; ip = "10.1.1.1"; viewer_id = "v2" }

found : get "s1" watched.sessions ≡ some session
unfolding get lookup
found = refl

registry_found : lookup "s1" watched.viewer_registries ≡ some registry
unfolding lookup
registry_found = refl

viewer_found : lookup "v2" registry.viewers ≡ some (viewer "v2" "b" false)
unfolding lookup
viewer_found = refl

accept_viewer_request-request_example :
    lookup "s1"
      (accept_viewer_request memory_store "s1" second
        (request_viewer_control memory_store "s1" second 100 watched).0).0.viewer_registries
    ≡ some (record registry { controller = "v2"; pending = none; timer = none })
accept_viewer_request-request_example =
    accept_viewer_request-request memory_store "s1" second second 100 watched session registry
      (viewer "v2" "b" false) found registry_found viewer_found refl refl
