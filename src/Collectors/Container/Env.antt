-- ===== src/Collectors/Container/Env.antt =====
-- internal/collectors/container.go: convertEnv against the printing of environment variables.
use system_monitor_go.Base.{
  ◌≡◌, refl, ap, List, [], ◌∷◌, ◌++◌, map, All, Lacks, Text, split_two-append,
}
use mathlib.Core.Path.{ap₂}
use system_monitor_go.Models.Container.{ContainerEnv}
use system_monitor_go.Collectors.Container.Convert.{convert_env, env_of}

-- A variable as Docker writes it.
abbrev pub print_env : ContainerEnv → Text
print_env e = e.key ++ b'=' ∷ e.value

-- Variables whose names hold no `=` are read back as they were written, with whatever their values
-- hold, `=` included.
pub convert_env-print_env :
    (es : List ContainerEnv) → All (λ e. Lacks b'=' e.key) es → convert_env (map print_env es) ≡ es
unfolding convert_env env_of
convert_env-print_env [] h = refl
convert_env-print_env (e ∷ es) h =
    ap₂ (λ x xs. x ∷ xs) (ap env_of (split_two-append e.key e.value b'=' h.0))
      (convert_env-print_env es h.1)
