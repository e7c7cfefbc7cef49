-- ===== src/Channels/Policy/Pairing.antt =====
-- Pairing codes: what one call changes, and what a history of calls can do.
use qwen_claw.Base.{
  ℕ, suc, ◌+◌, ◌≡◌, ap, Bool, false, ◌&&◌, ◌||◌, List, [], ◌∷◌, none, some, arith, Bool-cases,
  Option-cases, inl, inr, if◌then◌else◌,
}
use qwen_claw.Base.Text.{Text, text_eq, text_eq_iff}
use qwen_claw.Base.Dict.{Dict, find, find-insert}
use qwen_claw.Channels.Policy.{
  PairingManager, generate_code, member, add_sender, senders_of, pair_sender, verify_code,
  is_paired, unpair,
}

member-add_sender :
    (t s : Text) (senders : List Text)
    → member t (add_sender s senders) ≡ (text_eq t s || member t senders)
member-add_sender t s senders = elim (Bool-cases (member s senders)) [
  | inl already ↦ elim (Bool-cases (text_eq t s)) [
    | inl same ↦
        ground (arith, already, same, ap (λ x. member x senders) ((text_eq_iff t s).0 same))
    | inr other ↦ ground (arith, already, other)
  ]
  | inr new ↦ ground (arith, new)
]

is_paired-pair_sender :
    (channel sender channel' sender' : Text) (m : PairingManager)
    → is_paired channel' sender' (pair_sender channel sender m)
      ≡ (is_paired channel' sender' m || (text_eq channel channel' && text_eq sender' sender))
unfolding is_paired pair_sender senders_of
is_paired-pair_sender channel sender channel' sender' m =
    elim (Bool-cases (text_eq channel channel')) [
      | inl same ↦ elim (Option-cases (find channel m.paired)) [
        | inl missing ↦ ground (
          arith,
          same,
          missing,
          find-insert channel' channel (add_sender sender []) m.paired,
          ap (λ c. find c m.paired) ((text_eq_iff channel channel').0 same),
          member-add_sender sender' sender [],
        )
        | inr (senders, found) ↦ ground (
          arith,
          same,
          found,
          find-insert channel' channel (add_sender sender senders) m.paired,
          ap (λ c. find c m.paired) ((text_eq_iff channel channel').0 same),
          member-add_sender sender' sender senders,
        )
      ]
      | inr other ↦ ground (
        arith,
        other,
        find-insert channel' channel
            (add_sender sender
              (elim (find channel m.paired) [ none ↦ [] | some senders ↦ senders ]))
            m.paired,
      )
    ]

-- The code of the channel is the one given.
abbrev pub is_code : Text → Text → PairingManager → Bool
is_code channel code m = elim (find channel m.codes_of) [ none ↦ false | some c ↦ text_eq c code ]

-- A code pairs the sender on its channel, and nobody else, exactly when it is the channel's.
pub is_paired-verify_code :
    (channel code sender channel' sender' : Text) (m : PairingManager)
    → is_paired channel' sender' (verify_code channel code sender m).1 ≡ (
        is_paired channel' sender' m
        || (is_code channel code m && (text_eq channel channel' && text_eq sender' sender)))
unfolding verify_code
is_paired-verify_code channel code sender channel' sender' m =
    elim (Option-cases (find channel m.codes_of)) [
      | inl missing ↦ ground (arith, missing)
      | inr (c, found) ↦
          ground (arith, found, is_paired-pair_sender channel sender channel' sender' m)
    ]

-- The calls that change the manager; a random code is an argument.
pub data Call : Type 0 where
  generate : Text → Text → Call
  verify : Text → Text → Text → Call
  revoke : Text → Text → Call

abbrev pub step : Call → PairingManager → PairingManager
step (generate channel code) m = generate_code code channel m
step (verify channel code sender) m = (verify_code channel code sender m).1
step (revoke channel sender) m = unpair channel sender m

-- How many codes the calls generate, and how many verifications succeed.
abbrev pub generated : List Call → ℕ
generated [] = 0
generated (generate channel code ∷ calls) = suc (generated calls)
generated (verify channel code sender ∷ calls) = generated calls
generated (revoke channel sender ∷ calls) = generated calls

abbrev pub succeeded : Call → PairingManager → ℕ
succeeded (generate channel code) m = 0
succeeded (verify channel code sender) m = if (verify_code channel code sender m).0 then 1 else 0
succeeded (revoke channel sender) m = 0

abbrev pub successes : List Call → PairingManager → ℕ
successes [] m = 0
successes (call ∷ calls) m = succeeded call m + successes calls (step call m)
