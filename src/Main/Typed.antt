-- ===== src/Main/Typed.antt =====
-- The subcommands and the methods behind them: the arguments that the one declares and the other
-- reads.
use meta_overc.Base.{String, Bool, true, false, some, [], ◌≡◌, refl, All, if◌then◌else◌, none}
use meta_overc.Exec.{Result, ok}
use meta_overc.Overc.Containers.{ContainerCommand}
use meta_overc.Main.Args.{
  Arg, text, absent, switch, Namespace, Call, ◌>>=◌, read_text, read_name, read_option, read_switch,
  read_pair, read_forced, read_template, read_overlay, read_stop, read_create, call_of,
}
use meta_overc.Main.Table.{
  Argument, required, optional, store_true, store, Subcommand, system_commands, host_commands,
  container_commands,
}

-- A text or `None`
abbrev pub IsOptional : Arg → Type 0
IsOptional (text s) = Unit
IsOptional absent = Unit
IsOptional (switch b) = ⊥

-- What argparse sets for an argument
abbrev pub Sets : Namespace → Argument → Type 0
Sets args (required dest) = (s : String) × (args dest ≡ some (text s))
Sets args (optional dest) = (a : Arg) × (args dest ≡ some a) × IsOptional a
Sets args (store_true names dest) = (b : Bool) × (args dest ≡ some (switch b))
Sets args (store names dest) = (a : Arg) × (args dest ≡ some a) × IsOptional a

abbrev pub IsRead : {A : Type 0} → Result A → Type 0
IsRead {A} r = (a : A) × (r ≡ ok a)

-- With the attributes that argparse sets for its arguments, the method of a subcommand has all that
-- it reads.
abbrev pub Agrees : Subcommand → Type 0
Agrees c = (args : Namespace) → All (Sets args) c.arguments → IsRead (call_of args c.func)

bind-IsRead :
    {A B : Type 0} (r : Result A) (f : A → Result B)
    → IsRead r
    → ((a : A) → IsRead (f a))
    → IsRead (r >>= f)
unfolding ◌>>=◌
bind-IsRead r f (a, e) k = rw e (k a)

ok-IsRead : {A : Type 0} (a : A) → IsRead (ok a)
ok-IsRead a = (a, refl)

if-IsRead :
    {A : Type 0} (b : Bool) (r s : Result A) → IsRead r → IsRead s → IsRead (if b then r else s)
if-IsRead true r s k l = k
if-IsRead false r s k l = l

module _ (args : Namespace) (key : String) where
  read_text-IsRead : Sets args (required key) → IsRead (read_text args key)
  unfolding read_text ◌>>=◌
  read_text-IsRead (s, e) = rw e (s, refl)

  read_name-IsRead : Sets args (required key) → IsRead (read_name args key)
  unfolding read_name ◌>>=◌
  read_name-IsRead (s, e) = rw e (s, refl)

  read_option-IsRead : Sets args (optional key) → IsRead (read_option args key)
  unfolding read_option ◌>>=◌
  read_option-IsRead (text s, e, u) = rw e (some s, refl)
  read_option-IsRead (absent, e, u) = rw e (none, refl)
  read_option-IsRead (switch b, e, u) = absurd u

  maybe_name-IsRead : Sets args (optional key) → IsRead (read_name args key)
  unfolding read_name ◌>>=◌
  maybe_name-IsRead (text s, e, u) = rw e (s, refl)
  maybe_name-IsRead (absent, e, u) = rw e ("None", refl)
  maybe_name-IsRead (switch b, e, u) = absurd u

  read_switch-IsRead : Sets args (store_true [] key) → IsRead (read_switch args key)
  unfolding read_switch ◌>>=◌
  read_switch-IsRead (b, e) = rw e (b, refl)

ruleset read_rules = (
  bind-IsRead, ok-IsRead, if-IsRead, read_text-IsRead, read_name-IsRead, read_option-IsRead,
  read_switch-IsRead,
)

module _ (args : Namespace) where
  read_template-IsRead :
      (make : String → Call) → Sets args (required "template") → IsRead (read_template args make)
  unfolding read_template
  read_template-IsRead make template = search (read_rules) depth 8

  read_pair-IsRead :
      (make : String → String → ContainerCommand)
      → Sets args (required "name")
      → Sets args (required "template")
      → IsRead (read_pair args make)
  unfolding read_pair
  read_pair-IsRead make name template = search (read_rules) depth 8

  read_forced-IsRead :
      (make : String → String → Bool → ContainerCommand)
      → Sets args (required "name")
      → Sets args (required "template")
      → Sets args (store_true [] "force")
      → IsRead (read_forced args make)
  unfolding read_forced
  read_forced-IsRead make name template force = search (read_rules) depth 8

system_commands-Agrees : All Agrees system_commands
unfolding call_of
system_commands-Agrees = (
  (λ args (template, (reboots, (force, (skipscan, (skip_del, u))))). search (read_rules) depth 14),
  ((λ args (template, u). read_template-IsRead args _ template), ((λ args u. ok-IsRead _), tt)),
)

host_commands-Agrees : All Agrees host_commands
unfolding call_of
host_commands-Agrees = (
  (λ args u. ok-IsRead _),
  (
    (λ args (reboots, (force, u)). search (read_rules) depth 8),
    ((λ args u. ok-IsRead _), ((λ args u. ok-IsRead _), tt)),
  ),
)

container_commands-Agrees : All Agrees container_commands
unfolding call_of read_overlay read_stop read_create
container_commands-Agrees = (
  (λ args (name, (template, (snapshot_name, u))). search (read_rules) depth 10),
  (
    (λ args (template, u). read_template-IsRead args _ template),
    (
      (λ args (name, (template, u)). read_pair-IsRead args _ name template),
      (
        (λ args (template, u). read_template-IsRead args _ template),
        (
          (λ args (image_url, (template, u)). search (read_rules) depth 8),
          (
            (λ args (name, (template, u)). read_pair-IsRead args _ name template),
            (
              (λ args (name, (template, (rpm, (image, (skip_del, u))))).
                  bind-IsRead _ _ (maybe_name-IsRead args _ name)
                    (λ n. search (read_rules) depth 12)),
              (
                (λ args (name, (template, (force, u))).
                    read_forced-IsRead args _ name template force),
                (
                  (λ args (name, (template, u)). read_pair-IsRead args _ name template),
                  (
                    (λ args (name, (template, u)). read_pair-IsRead args _ name template),
                    (
                      (λ args (name, (template, (force, u))).
                          read_forced-IsRead args _ name template force),
                      (
                        (λ args (name, (template, u)). read_pair-IsRead args _ name template),
                        (
                          (λ args (name, (olstop, (oldir, (olsource, (ollist, u))))).
                              search (read_rules) depth 16),
                          tt,
                        ),
                      ),
                    ),
                  ),
                ),
              ),
            ),
          ),
        ),
      ),
    ),
  ),
)

-- Every subcommand declares what its method reads: where argparse has set the attributes of the
-- arguments that the subcommand declares, a required argument to a text, an optional one and an
-- option with a value to a text or `None`, and an option without a value to a Boolean, the method
-- reads all of its arguments and raises neither `AttributeError` nor `TypeError` on them.
pub subcommands-Agrees :
    All Agrees system_commands × All Agrees host_commands × All Agrees container_commands
subcommands-Agrees = (system_commands-Agrees, host_commands-Agrees, container_commands-Agrees)
