-- ===== src/Desktopcore/Replica/Clocks.antt =====
-- internal/desktopcore/service_sync.go: the clocks of the devices.
use ben_desktop.Base.{
  ℕ, ◌≡◌, refl, ap, inl, inr, false, ◌&&◌, String, List, [], ◌∷◌, arith, str_eq, str_eq_iff,
  trim_space, if◌then◌else◌, Bool-cases,
}
use ben_desktop.Desktopcore.Oplog.{DeviceClock, take_clock, or_zero, put_clock, upsert_device_clock}

-- The sequence number up to which the operations of a device are applied.
abbrev pub clock : List DeviceClock → String → String → ℕ
clock clocks library device = or_zero (take_clock clocks library device)

-- The clocks with the one of a device set.
abbrev pub raised : (String → String → ℕ) → String → String → ℕ → String → String → ℕ
raised c library device seq l d = if str_eq library l && str_eq device d then seq else c l d

clock-put_clock :
    (clocks : List DeviceClock) (library device : String) (seq : ℕ) (l d : String)
    → clock (put_clock clocks library device seq) l d ≡ raised (clock clocks) library device seq l d
unfolding put_clock take_clock or_zero
clock-put_clock [] library device seq l d = ground arith
clock-put_clock (c ∷ rest) library device seq l d =
    elim (Bool-cases (str_eq c.library_id library && str_eq c.device_id device)) [
      | inl here ↦
          let same_library = (str_eq_iff c.library_id library).0 (ground (arith, here)) in
          let same_device = (str_eq_iff c.device_id device).0 (ground (arith, here)) in
          rw here
            (ground (arith, ap (λ z. str_eq z l) same_library, ap (λ z. str_eq z d) same_device))
      | inr other ↦ rw other (elim (Bool-cases (str_eq c.library_id l && str_eq c.device_id d)) [
        | inl found ↦
            let miss : (str_eq library l && str_eq device d) ≡ false = ground (
              arith,
              other,
              found,
              str_eq_iff c.library_id l,
              str_eq_iff c.device_id d,
              str_eq_iff library l,
              str_eq_iff device d,
              str_eq_iff c.library_id library,
              str_eq_iff c.device_id device,
            ) in
            rw found (rw miss refl)
        | inr later ↦ rw later (clock-put_clock rest library device seq l d)
      ])
    ]

pub clock-upsert :
    (clocks : List DeviceClock) (library device : String) (seq : ℕ) (l d : String)
    → clock (upsert_device_clock clocks library device seq) l d
      ≡ raised (clock clocks) (trim_space library) (trim_space device) seq l d
unfolding upsert_device_clock
clock-upsert clocks library device seq l d =
    clock-put_clock clocks (trim_space library) (trim_space device) seq l d
