-- ===== src/Hardware/Bounds.antt =====
-- The arrays of the record of hardware facts (src/hardware.c, `detect_hardware`).
use hifetch.Common.{
  Table, put, IsWithin, put-IsWithin, ℕ, refl, inl, inr, List, [], ◌∷◌, Option, none, some, ltb,
  ltb→lt, arith, Bool-cases, get_or,
}
use hifetch.Hardware.State.{
  HardwareDevice, Sensor, HardwareInfo, fill, fill_found, cleared, max_sensors,
}
use hifetch.Sysinfo.State.{Formats}

module _ {A : Type 0} where
  fill-IsWithin :
      (limit : ℕ) (a : A) (one : List ℕ → A → List ℕ → Option A × List ℕ) (entries : List (List ℕ))
      (table : Table A) (text : List ℕ)
      → IsWithin limit table
      → IsWithin limit (fill limit a one entries table text).0
  unfolding fill
  fill-IsWithin limit a one [] table text h = h
  fill-IsWithin limit a one (entry ∷ entries) table text h =
      let next = one entry (get_or table.slots table.count a) text in
      elim (Bool-cases (ltb table.count limit)) [
        | inr full ↦ rw full h
        | inl free ↦ rw free (
            fill-IsWithin limit a one entries (put next.0 table) next.1
              (put-IsWithin limit next.0 table (ltb→lt table.count limit free) h))
      ]

  pub fill_found-IsWithin :
      (limit : ℕ) (a : A) (one : List ℕ → A → List ℕ → Option A × List ℕ)
      (entries : Option (List (List ℕ))) (table : Table A) (text : List ℕ)
      → IsWithin limit table
      → IsWithin limit (fill_found limit a one entries table text).0
  unfolding fill_found
  fill_found-IsWithin limit a one none table text h = h
  fill_found-IsWithin limit a one (some entries) table text h =
      fill-IsWithin limit a one entries table text h

module _ {D : Type 0} where
  -- All arrays have their sizes, and the counts fit them.
  abbrev pub IsSound : HardwareInfo D → Type 0
  IsSound hw =
      IsWithin 8 hw.gpu
      × IsWithin 16 hw.storage
      × IsWithin 8 hw.network
      × IsWithin 4 hw.audio
      × IsWithin max_sensors hw.temps
      × IsWithin max_sensors hw.fans
      × IsWithin max_sensors hw.voltages

  pub with_cpu :
      (hw : HardwareInfo D) (cpu : HardwareDevice D)
      → IsSound hw
      → IsSound (record hw { cpu = cpu })
  with_cpu hw cpu h = h

  pub with_gpu :
      (hw : HardwareInfo D) (t : Table (HardwareDevice D))
      → IsWithin 8 t
      → IsSound hw
      → IsSound (record hw { gpu = t })
  with_gpu hw t fits (_, s, n, a, h, p, v) = (fits, s, n, a, h, p, v)

  pub with_storage :
      (hw : HardwareInfo D) (t : Table (HardwareDevice D))
      → IsWithin 16 t
      → IsSound hw
      → IsSound (record hw { storage = t })
  with_storage hw t fits (g, _, n, a, h, p, v) = (g, fits, n, a, h, p, v)

  pub with_network :
      (hw : HardwareInfo D) (t : Table (HardwareDevice D))
      → IsWithin 8 t
      → IsSound hw
      → IsSound (record hw { network = t })
  with_network hw t fits (g, s, _, a, h, p, v) = (g, s, fits, a, h, p, v)

  pub with_audio :
      (hw : HardwareInfo D) (t : Table (HardwareDevice D))
      → IsWithin 4 t
      → IsSound hw
      → IsSound (record hw { audio = t })
  with_audio hw t fits (g, s, n, _, h, p, v) = (g, s, n, fits, h, p, v)

  pub with_temps :
      (hw : HardwareInfo D) (t : Table (Sensor D))
      → IsWithin max_sensors t
      → IsSound hw
      → IsSound (record hw { temps = t })
  with_temps hw t fits (g, s, n, a, _, p, v) = (g, s, n, a, fits, p, v)

  pub with_fans :
      (hw : HardwareInfo D) (t : Table (Sensor D))
      → IsWithin max_sensors t
      → IsSound hw
      → IsSound (record hw { fans = t })
  with_fans hw t fits (g, s, n, a, h, _, v) = (g, s, n, a, h, fits, v)

  pub with_voltages :
      (hw : HardwareInfo D) (t : Table (Sensor D))
      → IsWithin max_sensors t
      → IsSound hw
      → IsSound (record hw { voltages = t })
  with_voltages hw t fits (g, s, n, a, h, p, _) = (g, s, n, a, h, p, fits)

pub cleared-IsSound : {D : Type 0} (f : Formats D) → IsSound (cleared f)
unfolding cleared
cleared-IsSound f = (
  record { room = refl; few = omega arith },
  record { room = refl; few = omega arith },
  record { room = refl; few = omega arith },
  record { room = refl; few = omega arith },
  record { room = refl; few = omega arith },
  record { room = refl; few = omega arith },
  record { room = refl; few = omega arith },
)
