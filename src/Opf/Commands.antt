-- ===== src/Opf/Commands.antt =====
-- The commands of one round: which equipment they are for.
use sgidal_example.Prelude.{
  Bool-cases, All, bind_ok, ok_injective, Dict, lookup, mem, ok, String, ◌≡◌, refl, ap, ◌∙◌, subst,
  inl, inr, Bool, true, false, Option, none, some, List, [], ◌∷◌, ◌++◌, str_eq, eq_iff,
}
use sgidal_example.Floats.{Floats, Complex}
use sgidal_example.Adapter.Info.{Bus, split_pair}
use sgidal_example.Lindistflow.{ControlType, ignore_phase}
use sgidal_example.Lindistflow.Program.{Program, Answer, optimal_power_flow}
use sgidal_example.Lindistflow.Bounds.Assembly.{lookup-All}
use sgidal_example.Opf.{
  Command, Inputs, property_of, write_back, pv_command, eqid_commands, bus_commands, commands_of,
  area_of, measured_buses, optimised, run,
}
use sgidal_example.Opf.Named.{equipment_of, IsNamed, AreNamed, measured_buses-AreNamed}

module _ {F : Floats} where
  -- The command is for a PV system among these names, with a set point that is not small, and for the
  -- property of the control.
  pub record IsAimed (control : ControlType) (names : List String) (c : Command F) : Type 0 where
    pub known : mem c.obj_name names ≡ true
    pub own : String
    pub kind : split_pair c.obj_name ≡ ok ("PVSystem", own)
    pub large : F.lt c.val (F.literal 1 10) ≡ false
    pub property : c.obj_property ≡ property_of control

pub All-append :
    {A : Type 0} (P : A → Type 0) (xs ys : List A) → All P xs → All P ys → All P (xs ++ ys)
All-append P [] ys h k = k
All-append P (x ∷ xs) ys h k = (h.0, All-append P xs ys h.1 k)

pub All-split :
    {A : Type 0} (P : A → Type 0) (xs ys : List A) → All P (xs ++ ys) → All P xs × All P ys
All-split P [] ys h = (tt, h)
All-split P (x ∷ xs) ys h = let rest = All-split P xs ys h.1 in ((h.0, rest.0), rest.1)

module _ (F : Floats) where
  pv_command-IsAimed :
      (control : ControlType) (names : List String) (conversion : F.Float) (eqid : String)
      (val : Dict F.Float) (parts : String × String)
      → mem eqid names ≡ true
      → split_pair eqid ≡ ok parts
      → All (IsAimed control names) (pv_command {F = F} control conversion eqid val parts.0)
  unfolding pv_command
  pv_command-IsAimed control names conversion eqid val (kind, own) there split =
      elim (Bool-cases (str_eq kind "PVSystem")) [
        | inr other ↦ rw other tt
        | inl pv ↦
            elim (Bool-cases (F.lt (F.times (ignore_phase F val) conversion) (F.literal 1 10))) [
              | inl small ↦ rw (pv, small) tt
              | inr big ↦
                  rw (pv, big)
                    (
                      record {
                        known = there;
                        own = own;
                        kind = split ∙ ap (λ k. ok (k, own)) ((eq_iff kind "PVSystem").0 pv);
                        large = big;
                        property = refl;
                      },
                      tt,
                    )
            ]
      ]

  eqid_commands-IsAimed :
      (control : ControlType) (names : List String) (conversion : F.Float) (val : Dict F.Float)
      (o : Option String) (cs : List (Command F))
      → ((eqid : String) → o ≡ some eqid → mem eqid names ≡ true)
      → eqid_commands {F = F} control conversion val o ≡ ok cs
      → All (IsAimed control names) cs
  unfolding eqid_commands
  eqid_commands-IsAimed control names conversion val none cs there run =
      subst (All (IsAimed control names)) (ok_injective run) tt
  eqid_commands-IsAimed control names conversion val (some eqid) cs there run =
      let (parts, split, done) = bind_ok (split_pair eqid) _ run in
      subst (All (IsAimed control names)) (ok_injective done)
        (pv_command-IsAimed control names conversion eqid val parts (there eqid refl) split)

  bus_commands-IsAimed :
      (control : ControlType) (names : List String) (conversion : F.Float) (val : Dict F.Float)
      (o : Option (Bus F)) (cs : List (Command F))
      → ((b : Bus F) → o ≡ some b → IsNamed names b)
      → bus_commands control conversion val o ≡ ok cs
      → All (IsAimed control names) cs
  unfolding bus_commands
  bus_commands-IsAimed control names conversion val none cs there run =
      subst (All (IsAimed control names)) (ok_injective run) tt
  bus_commands-IsAimed control names conversion val (some b) cs there run =
      let named = there b refl in
      eqid_commands-IsAimed control names conversion val b.eqid cs named.name run

module _ {F : Floats} where
  pub commands_of-IsAimed :
      (control : ControlType) (names : List String) (conversion : F.Float) (buses : Dict (Bus F))
      (found : Dict (Dict F.Float)) (cs : List (Command F))
      → AreNamed names buses
      → commands_of control conversion buses found ≡ ok cs
      → All (IsAimed control names) cs
  unfolding commands_of
  commands_of-IsAimed control names conversion buses [] cs named run =
      subst (All (IsAimed control names)) (ok_injective run) tt
  commands_of-IsAimed control names conversion buses ((key, val) ∷ rest) cs named run =
      let (first, one, after) =
        bind_ok (bus_commands control conversion val (lookup key buses)) _ run in
      let (others, more, done) =
        bind_ok (commands_of control conversion buses rest) (λ others. ok (first ++ others))
          after in
      subst (All (IsAimed control names)) (ok_injective done) (
        All-append (IsAimed control names) first others
          (bus_commands-IsAimed F control names conversion val (lookup key buses) first
            (λ b e. lookup-All (IsNamed names) key buses b named e) one)
          (commands_of-IsAimed control names conversion buses rest others named more))

module _ {F : Floats} (neg_pinv : List (List (Complex F)) → List (List (Complex F)))
    (connected_components : List (String × String) → List (List String))
    (solver : Program F → Answer F) where
  pub optimised-IsAimed :
      (control : ControlType) (pf_flag : Bool) (names : List String) (m : Inputs F)
      (found : List (Command F) × Dict (Dict F.Float))
      → All (λ eq. mem eq names ≡ true) (equipment_of m.real)
      → All (λ eq. mem eq names ≡ true) (equipment_of m.imag)
      → optimised neg_pinv connected_components solver control pf_flag m ≡ ok found
      → All (IsAimed control names) found.0
  unfolding optimised
  optimised-IsAimed control pf_flag names m found real imag run =
      let (area, _, after_area) = bind_ok (area_of neg_pinv connected_components solver m) _ run in
      let (buses, read, after_read) = bind_ok (measured_buses m area.1) _ after_area in
      let (opf, _, after_opf) =
        bind_ok (optimal_power_flow solver area.0 (write_back area.1 buses) area.2 control pf_flag)
          _ after_read in
      let (cs, commanded, done) =
        bind_ok (commands_of control opf.kw_converter buses opf.control)
          (λ commands. ok (commands, opf.bus_voltage)) after_opf in
      subst (All (IsAimed control names))
        (ap (λ (p : List (Command F) × Dict (Dict F.Float)). p.0) (ok_injective done))
        (commands_of-IsAimed control names opf.kw_converter buses opf.control cs
          (measured_buses-AreNamed names m area.1 buses real imag read) commanded)
