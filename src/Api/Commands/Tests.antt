-- ===== src/Api/Commands/Tests.antt =====
-- The command handlers at a session with a bridge.
use kvm_switcher.Api.Sample.{sample}
use kvm_switcher.Api.Commands.Told.{commands-Outcome, Outcome}
use kvm_switcher.Api.Commands.Asked.{Asked, Powers, Locks, Resets, Points, LaysOut, Carries}
use kvm_switcher.Api.Commands.{
  kvm_ipmi_command, kvm_keyboard_layout, kvm_mouse_mode, kvm_reset_video, kvm_display_lock,
  Commander, Bridges,
}
use kvm_switcher.Api.Commands.Power.{power_by}
use kvm_switcher.Ikvm.Bytes.{Bytes}
use kvm_switcher.Api.Sessions.{email_of}
use kvm_switcher.Prelude.{some, Bool, true, [], none, String, ◌∷◌, Option}
use kvm_switcher.Ikvm.Bridge.{new_bridge}
use kvm_switcher.Store.Memory.{memory_store}

abbrev caller : Commander
caller = record { user = none; remote_addr = "10.1.1.1:4000"; ip = "10.1.1.1" }

abbrev bridges : Bridges
bridges = ("s1", record new_bridge { client = true; running = true }) ∷ []

commands-Outcome_example :
    ((body : Option String)
      → Outcome memory_store "kvm_power_control" "" caller.remote_addr "s1"
          (Asked Powers body)
          bridges
          sample
          (power_by memory_store "s1" body caller bridges sample))
    × (((body : Option Bool)
          → Outcome memory_store "kvm_display_lock"
              (email_of caller.user)
              caller.ip
              "s1"
              (Asked Locks body)
              bridges
              sample
              (kvm_display_lock memory_store "s1" body caller bridges sample))
        × (Outcome memory_store "kvm_reset_video"
              (email_of caller.user)
              caller.ip
              "s1"
              (Asked Resets (some true))
              bridges
              sample
              (kvm_reset_video memory_store "s1" caller bridges sample)
            × (((body : Option String)
                  → Outcome memory_store "kvm_mouse_mode"
                      (email_of caller.user)
                      caller.ip
                      "s1"
                      (Asked Points body)
                      bridges
                      sample
                      (kvm_mouse_mode memory_store "s1" body caller bridges sample))
                × (((body : Option String)
                      → Outcome memory_store "kvm_keyboard_layout"
                          (email_of caller.user)
                          caller.ip
                          "s1"
                          (Asked LaysOut body)
                          bridges
                          sample
                          (kvm_keyboard_layout memory_store "s1" body caller bridges sample))
                    × ((body : Option Bytes)
                        → Outcome memory_store "kvm_ipmi_command"
                            (email_of caller.user)
                            caller.ip
                            "s1"
                            (Asked Carries body)
                            bridges
                            sample
                            (kvm_ipmi_command memory_store "s1" body caller bridges sample))))))
commands-Outcome_example = commands-Outcome memory_store "s1" caller bridges sample
