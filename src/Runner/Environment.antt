-- ===== src/Runner/Environment.antt =====
-- What a bot's container sees in its environment (src/oreeai_notetaker/workers/bot_runner.py,
-- `build_spawn_args`).
use oreeai_notetaker.Prelude.{
  ◌≡◌, refl, sym, ◌∙◌, ap, subst, Bool, true, false, ◌&&◌, List, [], ◌∷◌, Option, none, some,
  String, ◌⊎◌, inl, inr, arith, str_eq, eq_iff, is_some, if◌then◌else◌, Bool-cases,
}
use oreeai_notetaker.Call.{Call}
use oreeai_notetaker.World.{Env}
use oreeai_notetaker.Runner.ExitTable.{text_in}
use oreeai_notetaker.Runner.Host.{Host}
use oreeai_notetaker.Runner.Spawn.{
  Values, env_passthrough, set_item, set_if, truthy, pass_through, env_values,
}

abbrev pub lookup : String → Values → Option String
lookup key [] = none
lookup key ((k, v) ∷ vs) = if str_eq key k then some v else lookup key vs

str_eq_refl : (s : String) → str_eq s s ≡ true
str_eq_refl s = (eq_iff s s).1 refl

-- Two keys are the same, or differ either way round.
keys : (a b : String) → (a ≡ b) ⊎ ((str_eq a b ≡ false) × (str_eq b a ≡ false))
keys a b = elim (Bool-cases (str_eq a b)) [
  | inl e ↦ inl ((eq_iff a b).0 e)
  | inr e ↦ elim (Bool-cases (str_eq b a)) [
    | inl f ↦ inl (sym ((eq_iff b a).0 f))
    | inr f ↦ inr (e, f)
  ]
]

lookup-set_item :
    (key k v : String) (vs : Values)
    → lookup key (set_item k v vs) ≡ (if str_eq key k then some v else lookup key vs)
lookup-set_item key k v [] = refl
lookup-set_item key k v ((j, u) ∷ vs) = elim (keys j k) [
  | inl same ↦
      subst
        (λ x.
          lookup key (set_item x v ((j, u) ∷ vs))
          ≡ (if str_eq key x then some v else lookup key ((j, u) ∷ vs)))
        same (rw (str_eq_refl j) (ground arith))
  | inr (miss, _) ↦ rw miss (elim (keys key j) [
    | inl hit ↦
        subst
          (λ x.
            (if str_eq x j then some u else lookup x (set_item k v vs))
            ≡ (if str_eq x k then some v else if str_eq x j then some u else lookup x vs))
          (sym hit) (rw (str_eq_refl j, miss) refl)
    | inr (other, _) ↦ rw other (lookup-set_item key k v vs)
  ])
]

lookup-set_if :
    (key k : String) (o : Option String) (vs : Values)
    → lookup key (set_if k o vs) ≡ (if str_eq key k && is_some o then o else lookup key vs)
lookup-set_if key k none vs = ground arith
lookup-set_if key k (some v) vs = lookup-set_item key k v vs ∙ ground arith

-- The value that the runner's own environment has for a key of the list, if it is not empty.
abbrev pub passed : (String → Option String) → List String → String → Option String
passed environ names key = if text_in key names then truthy (environ key) else none

abbrev pub or_else : Option String → Option String → Option String
or_else none d = d
or_else (some v) d = some v

pick :
    (b : Bool) (o d : Option String)
    → or_else (if b then o else none) (if is_some o then o else d) ≡ or_else o d
pick b o d = ground arith

lookup-pass_through :
    (environ : String → Option String) (names : List String) (key : String) (vs : Values)
    → lookup key (pass_through environ names vs)
      ≡ or_else (passed environ names key) (lookup key vs)
lookup-pass_through environ [] key vs = refl
lookup-pass_through environ (x ∷ names) key vs =
    lookup-pass_through environ names key (set_if x (truthy (environ x)) vs)
    ∙ ap (or_else (passed environ names key)) (lookup-set_if key x (truthy (environ x)) vs)
    ∙ next (keys key x)
  where
    next :
        (key ≡ x) ⊎ ((str_eq key x ≡ false) × (str_eq x key ≡ false))
        → or_else (passed environ names key) (
            if str_eq key x && is_some (truthy (environ x))
            then truthy (environ x)
            else lookup key vs)
          ≡ or_else (passed environ (x ∷ names) key) (lookup key vs)
    next (inl same) =
        subst
          (λ y.
            or_else (passed environ names key) (
              if str_eq key y && is_some (truthy (environ y))
              then truthy (environ y)
              else lookup key vs)
            ≡ or_else (passed environ (y ∷ names) key) (lookup key vs))
          same
          (rw (str_eq_refl key) (pick (text_in key names) (truthy (environ key)) (lookup key vs)))
    next (inr (miss, _)) = rw miss refl

-- What the runner always gives.
abbrev pub given : Env → Call → String → Option String
given env call key =
    if str_eq key "MEETING_URL"
    then some call.meeting_url
    else if str_eq key "CALL_ID"
    then some (env.codec.uuid_text call.id)
    else if str_eq key "CONSENT_ACK"
    then some "true"
    else none

lookup_profile :
    (environ : String → Option String) (names : List String) (b : Bool) (key : String) (vs : Values)
    → lookup key (
        if b
        then set_item "BOT_PROFILE_DIR" "/profile" (pass_through environ names vs)
        else pass_through environ names vs)
      ≡ (if str_eq key "BOT_PROFILE_DIR" && b
          then some "/profile"
          else or_else (passed environ names key) (lookup key vs))
lookup_profile environ names true key vs =
    lookup-set_item key "BOT_PROFILE_DIR" "/profile" (pass_through environ names vs)
    ∙ rw (lookup-pass_through environ names key vs) (ground arith)
lookup_profile environ names false key vs = lookup-pass_through environ names key vs ∙ ground arith

-- What a bot sees in its environment: with a profile, BOT_PROFILE_DIR is `/profile`; a key of the list
-- that is passed through has the runner's own value, if that is not empty; MEETING_URL and CALL_ID are
-- the call's, CONSENT_ACK is `true` whatever the call's consent is, and no other key is set.
pub lookup-env_values :
    (env : Env) (host : Host) (call : Call) (profile : Option String) (key : String)
    → lookup key (env_values env host call profile) ≡ (
        if str_eq key "BOT_PROFILE_DIR" && is_some (truthy profile)
        then some "/profile"
        else or_else (passed host.environ env_passthrough key) (given env call key))
unfolding env_values
lookup-env_values env host call profile key =
    lookup_profile host.environ env_passthrough (is_some (truthy profile)) key (
      ("MEETING_URL", call.meeting_url)
      ∷ ("CALL_ID", env.codec.uuid_text call.id)
      ∷ ("CONSENT_ACK", "true")
      ∷ [])
