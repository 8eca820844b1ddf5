-- ===== src/Domain/Routing/Meaning.antt =====
-- Who may take a message, told apart from the tests of routing.go.
use touch_connect.Prelude.{
  String, Bool, true, false, not, ◌||◌, ◌==◌, ◌≡◌, ◌≢◌, ◌↔◌, ◌⊎◌, refl, inl, inr, arith, eq_iff,
  Bool-cases, Option-cases, some, [], ◌∷◌,
}
use touch_connect.GoMap.{Map, get}
use touch_connect.GoText.{trim_space, has_suffix, has_prefix, trim_suffix}
use touch_connect.Contracts.Endpoints.{Capability}
use touch_connect.Domain.Model.{Message, Endpoint}
use touch_connect.Domain.Routing.{
  wildcard_matches, any_wildcard, capability_matches, endpoint_can_handle, message_targets_endpoint,
  online_and_able, preferred_endpoint_online_for_message,
}

-- A name that ends in ".*" and whose part before the star begins the target.
abbrev pub WildcardIn : Map Capability → String → Type 0
WildcardIn [] target = ⊥
WildcardIn ((name, c) ∷ rest) target =
    ((has_suffix (trim_space name) ".*" ≡ true)
      × (has_prefix target (trim_suffix (trim_space name) "*") ≡ true))
    ⊎ WildcardIn rest target

-- The endpoint advertises the target by its name or by a wildcard.
abbrev pub CanHandle : Endpoint → String → Type 0
CanHandle endpoint target_capability =
    (trim_space target_capability ≢ "")
    × (((c : Capability) × (get endpoint.capabilities (trim_space target_capability) ≡ some c))
        ⊎ WildcardIn endpoint.capabilities (trim_space target_capability))

-- The endpoint with the reference is among the given ones and could take the message.
abbrev pub OnlineFor : Map Endpoint → String → Message → Type 0
OnlineFor endpoints ref m =
    (e : Endpoint) × (get endpoints ref ≡ some e) × CanHandle e m.target_capability

WildcardIn-iff :
    (capabilities : Map Capability) (target : String)
    → (any_wildcard capabilities target ≡ true) ↔ WildcardIn capabilities target
unfolding any_wildcard wildcard_matches
WildcardIn-iff [] target = (λ h. ground arith, λ h. absurd h)
WildcardIn-iff ((name, c) ∷ rest) target =
    let later = WildcardIn-iff rest target in
    (
      λ h. elim (Bool-cases (any_wildcard rest target)) [
        | inl e ↦ inr (later.0 e)
        | inr e ↦ inl (ground arith, ground arith)
      ],
      λ p. elim p [ inl (a, b) ↦ ground arith | inr w ↦ ground (arith, later.1 w) ],
    )

pub CanHandle-iff :
    (e : Endpoint) (target : String) → (endpoint_can_handle e target ≡ true) ↔ CanHandle e target
unfolding endpoint_can_handle capability_matches
CanHandle-iff e target =
    let t = trim_space target in
    elim (Bool-cases (t == "")) [
      | inl blank ↦ (λ h. absurd (cc (rw blank at h)), λ p. absurd (p.0 ((eq_iff t "").0 blank)))
      | inr named ↦
          let set : t ≢ "" = λ blank. cc ((eq_iff t "").1 blank) in
          elim (Option-cases (get e.capabilities t)) [
            | inl absent ↦ (
              λ h. (set, inr ((WildcardIn-iff e.capabilities t).0 (rw (named, absent) at h))),
              λ p. elim p.1 [
                | inl (c, ec) ↦ cc
                | inr w ↦ rw (named, absent) ((WildcardIn-iff e.capabilities t).1 w)
              ],
            )
            | inr (c, ec) ↦ (λ h. (set, inl (c, ec)), λ p. rw (named, ec) refl)
          ]
    ]

pub OnlineFor-iff :
    (endpoints : Map Endpoint) (m : Message)
    → trim_space m.preferred_endpoint_ref ≢ ""
    → (preferred_endpoint_online_for_message m endpoints ≡ true)
      ↔ OnlineFor endpoints (trim_space m.preferred_endpoint_ref) m
unfolding preferred_endpoint_online_for_message online_and_able
OnlineFor-iff endpoints m set =
    let p = trim_space m.preferred_endpoint_ref in
    let named : (p == "") ≡ false = ground (arith, eq_iff p "", set) in
    elim (Option-cases (get endpoints p)) [
      | inl absent ↦ (λ h. absurd (cc (rw (named, absent) at h)), λ (e, ee, able). absurd cc)
      | inr (e, ee) ↦ (
        λ h. (e, ee, (CanHandle-iff e m.target_capability).0 (rw (named, ee) at h)),
        λ (x, ex, able). rw (named, ex) ((CanHandle-iff x m.target_capability).1 able),
      )
    ]

pub addressed_iff :
    (m : Message) (ref : String)
    → (message_targets_endpoint m ref ≡ true)
      ↔ ((m.target_endpoint_ref ≡ "") ⊎ (m.target_endpoint_ref ≡ ref))
unfolding message_targets_endpoint
addressed_iff m ref = (
  λ h. elim (Bool-cases (m.target_endpoint_ref == "")) [
    | inl open_to_all ↦ inl ((eq_iff m.target_endpoint_ref "").0 open_to_all)
    | inr named ↦ inr ((eq_iff m.target_endpoint_ref ref).0 (ground arith))
  ],
  λ p. elim p [
    | inl e ↦ ground (arith, (eq_iff m.target_endpoint_ref "").1 e)
    | inr e ↦ ground (arith, (eq_iff m.target_endpoint_ref ref).1 e)
  ],
)

-- The last test of MessageClaimableByEndpoint.
abbrev is_preferred : Message → String → Bool → Bool
is_preferred m ref online =
    let p = trim_space m.preferred_endpoint_ref in p == "" || p == ref || not online

pub preferred_iff :
    (endpoints : Map Endpoint) (m : Message) (ref : String)
    → (is_preferred m ref (preferred_endpoint_online_for_message m endpoints) ≡ true) ↔ (
        (trim_space m.preferred_endpoint_ref ≡ "")
        ⊎ ((trim_space m.preferred_endpoint_ref ≡ ref)
            ⊎ (¬ OnlineFor endpoints (trim_space m.preferred_endpoint_ref) m)))
preferred_iff endpoints m ref =
    let p = trim_space m.preferred_endpoint_ref in
    let online = preferred_endpoint_online_for_message m endpoints in
    elim (Bool-cases (p == "")) [
      | inl blank ↦ (λ h. inl ((eq_iff p "").0 blank), λ q. ground arith)
      | inr set ↦
          let present : p ≢ "" = λ e. cc ((eq_iff p "").1 e) in
          let decides = OnlineFor-iff endpoints m present in
          elim (Bool-cases (p == ref)) [
            | inl own ↦ (λ h. inr (inl ((eq_iff p ref).0 own)), λ q. ground arith)
            | inr other ↦ (
              λ h.
                  let off : online ≡ false = ground arith in inr (inr (λ o. cc (decides.1 o, off))),
              λ q. elim q [
                | inl e ↦ absurd (present e)
                | inr (inl e) ↦ cc ((eq_iff p ref).1 e)
                | inr (inr off) ↦ elim (Bool-cases online) [
                  | inl on ↦ absurd (off (decides.0 on))
                  | inr away ↦ ground arith
                ]
              ],
            )
          ]
    ]
