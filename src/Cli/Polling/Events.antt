-- ===== src/Cli/Polling/Events.antt =====
-- The events of one round of src/bin/nic-emu-cli/main.rs, in whatever order and number they come.
use e1000_emu.Prelude.{
  ℕ, ◌≡◌, refl, ◌∙◌, inl, inr, Bool, true, false, ◌&&◌, ◌||◌, none, some, List, [], ◌∷◌, ◌==◌,
  Bool-cases, arith, if◌then◌else◌,
}
use e1000_emu.Cli.Polling.{
  Actions, note_event, collect, no_actions, event_key_run, event_key_receive, event_key_timer,
}

-- Is the key among the events?
abbrev pub has : ℕ → List ℕ → Bool
has key [] = false
has key (k ∷ ks) = (k == key) || has key ks

-- Has each event one of the three keys?
abbrev pub all_known : List ℕ → Bool
all_known [] = true
all_known (k ∷ ks) =
    ((k == event_key_run) || (k == event_key_receive) || (k == event_key_timer)) && all_known ks

-- What the events ask for, besides what was asked for before.
abbrev pub asked : List ℕ → Actions → Actions
asked keys a = record {
  run = has event_key_run keys || a.run;
  receive = has event_key_run keys || (has event_key_receive keys || a.receive);
  timer_elapsed = has event_key_timer keys || a.timer_elapsed;
}

or_true : (b : Bool) → (b || true) ≡ true
or_true true = refl
or_true false = refl

or_false : (b : Bool) → (b || false) ≡ b
or_false true = refl
or_false false = refl

collect-asked :
    (keys : List ℕ) (a : Actions)
    → collect keys a ≡ (if all_known keys then some (asked keys a) else none)
unfolding collect note_event
collect-asked [] a = refl
collect-asked (k ∷ ks) a = elim (Bool-cases (k == event_key_run)) [
  | inl p ↦
      let r : (k == event_key_timer) ≡ false = ground (arith, p) in
      rw (collect, note_event, p, r)
        (collect-asked ks (record a { run = true; receive = true })
          ∙ rw
              (
                or_true (has event_key_run ks),
                or_true (has event_key_receive ks),
                or_true (has event_key_run ks),
              )
              refl)
  | inr p ↦ elim (Bool-cases (k == event_key_receive)) [
    | inl q ↦
        let r : (k == event_key_timer) ≡ false = ground (arith, q) in
        rw (collect, note_event, p, q, r)
          (collect-asked ks (record a { receive = true })
            ∙ rw (or_true (has event_key_receive ks)) refl)
    | inr q ↦ elim (Bool-cases (k == event_key_timer)) [
      | inl r ↦
          rw (collect, note_event, p, q, r)
            (collect-asked ks (record a { timer_elapsed = true })
              ∙ rw (or_true (has event_key_timer ks)) refl)
      | inr r ↦ rw (collect, note_event, p, q, r) refl
    ]
  ]
]

-- The events of a round are collected without regard to their order and number: libvfio-user is run
-- exactly if its key is among them, packets are read exactly if its key or that of the interface
-- is, the timer is looked after exactly if its key is; and it panics exactly if one of them has
-- another key.
pub collect_lem :
    (keys : List ℕ)
    → collect keys no_actions ≡ (
        if all_known keys
        then some (record {
          run = has event_key_run keys;
          receive = has event_key_run keys || has event_key_receive keys;
          timer_elapsed = has event_key_timer keys;
        })
        else none)
collect_lem keys =
    collect-asked keys no_actions
    ∙ rw
        (
          or_false (has event_key_run keys),
          or_false (has event_key_receive keys),
          or_false (has event_key_timer keys),
        )
        refl
