-- ===== src/Modules.antt =====
-- The native modules and classes of this build, components/berry/port/be_modtab.c with the switches of
-- components/berry/port/berry_conf.h. The interpreter finds a native module by its name in the table.
use esp32_berry_lang.Base.{
  Bool, true, false, Bytes, List, [], ◌∷◌, ◌++◌, codes, if◌then◌else◌, ◌≡◌, refl,
}

-- `BE_USE_XXX_MODULE`
pub record Switches : Type 0 where
  pub use_string : Bool
  pub use_json : Bool
  pub use_math : Bool
  pub use_time : Bool
  pub use_os : Bool
  pub use_global : Bool
  pub use_sys : Bool
  pub use_debug : Bool
  pub use_gc : Bool
  pub use_solidify : Bool
  pub use_introspect : Bool
  pub use_strict : Bool

-- The switches of berry_conf.h
abbrev pub berry_conf : Switches
berry_conf = record {
  use_string = true;
  use_json = true;
  use_math = true;
  use_time = true;
  use_os = true;
  use_global = false;
  use_sys = false;
  use_debug = false;
  use_gc = false;
  use_solidify = false;
  use_introspect = false;
  use_strict = false;
}

-- `#if use … #endif` around one entry
abbrev pub entry : Bool → Bytes → List Bytes
entry used name = if used then name ∷ [] else []

-- `be_module_table`, by name, up to its NULL
unfoldable pub be_module_table : Switches → List Bytes
be_module_table c =
    entry c.use_string (codes "string")
    ++ (entry c.use_json (codes "json")
        ++ (entry c.use_math (codes "math")
            ++ (entry c.use_time (codes "time")
                ++ (entry c.use_os (codes "os")
                    ++ (entry c.use_global (codes "global")
                        ++ (entry c.use_sys (codes "sys")
                            ++ (entry c.use_debug (codes "debug")
                                ++ (entry c.use_gc (codes "gc")
                                    ++ (entry c.use_solidify (codes "solidify")
                                        ++ (entry c.use_introspect (codes "introspect")
                                            ++ (entry c.use_strict (codes "strict")
                                                ++ (codes "undefined" ∷ codes "cb" ∷ []))))))))))))

-- `be_class_table`, up to its NULL
abbrev pub be_class_table : List Bytes
be_class_table = []

-- `be_load_custom_libs`, which does nothing to the machine
abbrev pub be_load_custom_libs {ℓ} : {M : Type ℓ} → M → M
be_load_custom_libs m = m

-- The modules that Berry code can import.
be_module_table-berry_conf :
    be_module_table berry_conf
    ≡ codes "string"
      ∷ codes "json"
      ∷ codes "math"
      ∷ codes "time"
      ∷ codes "os"
      ∷ codes "undefined"
      ∷ codes "cb"
      ∷ []
unfolding be_module_table
be_module_table-berry_conf = refl
