-- ===== src/Vnc/Gating/Tests.antt =====
-- The gating and the handshake at concrete messages.
use kvm_switcher.Vnc.Gating.{
  bmc_handshake_cut, read_client_input-Adds, joined, ended, sent, stopped, answers,
}
use kvm_switcher.Prelude.{replicate, ◌++◌, [], ◌∷◌, ◌≡◌, refl, inl, inr, true, false, arith}
use kvm_switcher.Vnc.{
  established, version, bmc_handshake, reverse_bits, read_client_input, forwarded,
}
use kvm_switcher.Ikvm.Bytes.{Bytes}

reversed : reverse_bits 6 ≡ 96
unfolding reverse_bits
reversed = refl

-- A request for an update, and a key event that is sent without control after it.
read_client_input-Adds_example :
    (read_client_input true ((3 ∷ 1 ∷ [], false) ∷ (4 ∷ 1 ∷ [], false) ∷ (5 ∷ 0 ∷ [], true) ∷ [])
      ≡ read_client_input true ((3 ∷ 1 ∷ [], false) ∷ (5 ∷ 0 ∷ [], true) ∷ []))
    × (read_client_input false ((3 ∷ 1 ∷ [], false) ∷ (4 ∷ 1 ∷ [], false) ∷ (5 ∷ 0 ∷ [], true) ∷ [])
        ≡ joined ((3 ∷ 1 ∷ [], false) ∷ (5 ∷ 0 ∷ [], true) ∷ []))
read_client_input-Adds_example =
    read_client_input-Adds true
      ((3 ∷ 1 ∷ [], false) ∷ (4 ∷ 1 ∷ [], false) ∷ (5 ∷ 0 ∷ [], true) ∷ [])
      ((3 ∷ 1 ∷ [], false) ∷ (5 ∷ 0 ∷ [], true) ∷ [])
      (sent (3 ∷ 1 ∷ [], false) (inl (λ e. omega arith, λ e. omega arith))
        (stopped 4 (1 ∷ []) (inl refl) (sent (5 ∷ 0 ∷ [], true) (inr refl) ended)))

-- A message of another type takes a key event with it, also without control.
smuggled : forwarded true false ((3 ∷ 0 ∷ []) ++ (4 ∷ 1 ∷ [])) ≡ 3 ∷ 0 ∷ 4 ∷ 1 ∷ []
unfolding forwarded
smuggled = refl

abbrev no_cipher : Bytes → Bytes → Bytes
no_cipher key block = block

bmc_handshake_cut_example :
    bmc_handshake no_cipher [] (version ++ 2 ∷ 1 ∷ 16 ∷ [])
    ≡ established (answers no_cipher [] false) (replicate 24 0)
bmc_handshake_cut_example = bmc_handshake_cut no_cipher [] version (1 ∷ 16 ∷ []) refl refl
