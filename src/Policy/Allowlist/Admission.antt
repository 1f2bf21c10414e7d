-- ===== src/Policy/Allowlist/Admission.antt =====
-- Which chats a configured allowlist admits, in terms of the configuration.
use wazzap_agent_go.Prelude.{
  ◌≡◌, ◌≢◌, ◌↔◌, ◌⊎◌, inl, inr, refl, sym, subst, ◌∙◌, true, false, not, ◌&&◌, Bool-cases, List, [],
  ◌∷◌, arith, if◌then◌else◌, any, ok, Text, text_eq, text_eq_iff, elem, Elem, elem_iff,
}
use wazzap_agent_go.Policy.Chat.{ChatKind, direct, group, status, other}
use wazzap_agent_go.Policy.Allowlist.{
  InboundGate, collect, new_inbound_gate, chat_allowlisted, chat_allowlist_wildcard_matches,
  chat_allowlist_all, chat_allowlist_direct, chat_allowlist_group, is_group, wildcards,
}

-- An address that the configuration lists, other than the empty one.
abbrev pub Listed : List Text → Text → Type 0
Listed configured a = Elem a configured × (a ≢ [])

-- The entries after one more configured address.
abbrev entries_after : Text → List Text → List Text
entries_after c entries =
    if text_eq c [] then entries else (if elem c entries then entries else c ∷ entries)

module _ (a c : Text) (entries : List Text) where
  after_empty :
      text_eq c [] ≡ true
      → Elem a (entries_after c entries) ↔ (Elem a entries ⊎ ((a ≡ c) × (a ≢ [])))
  after_empty empty =
      let is_empty = (text_eq_iff c []).0 empty in
      let none_full = λ (e : a ≡ c) (n : a ≢ []). n (e ∙ is_empty) in rw empty (ground arith)

  after_seen :
      text_eq c [] ≡ false
      → elem c entries ≡ true
      → Elem a (entries_after c entries) ↔ (Elem a entries ⊎ ((a ≡ c) × (a ≢ [])))
  after_seen full seen =
      let mem = (elem_iff c entries).0 seen in
      let same = λ (e : a ≡ c). subst (λ t. Elem t entries) (sym e) mem in
      rw full (rw seen (ground arith))

  after_new :
      text_eq c [] ≡ false
      → elem c entries ≡ false
      → Elem a (entries_after c entries) ↔ (Elem a entries ⊎ ((a ≡ c) × (a ≢ [])))
  after_new full new =
      let is_full = λ (e : c ≡ []). (text_eq_iff c []).1 e in rw full (rw new (ground arith))

entries_after_iff :
    (a c : Text) (entries : List Text)
    → Elem a (entries_after c entries) ↔ (Elem a entries ⊎ ((a ≡ c) × (a ≢ [])))
entries_after_iff a c entries = elim (Bool-cases (text_eq c [])) [
  | inl empty ↦ after_empty a c entries empty
  | inr full ↦ elim (Bool-cases (elem c entries)) [
    | inl seen ↦ after_seen a c entries full seen
    | inr new ↦ after_new a c entries full new
  ]
]

collect_iff :
    (a : Text) (entries configured : List Text)
    → Elem a (collect entries configured) ↔ (Elem a entries ⊎ Listed configured a)
unfolding collect
collect_iff a entries [] = (λ h. inl h, λ h. elim h [ inl m ↦ m | inr (m, _) ↦ absurd m ])
collect_iff a entries (c ∷ configured) =
    let rest = collect_iff a (entries_after c entries) configured in
    let here = entries_after_iff a c entries in ground (arith, rest, here)

gate_allowlist :
    (owner : Text) (configured : List Text) (gate : InboundGate)
    → new_inbound_gate owner configured ≡ ok gate
    → gate.allowlist ≡ collect [] configured
unfolding new_inbound_gate
gate_allowlist owner configured gate built = ground arith

is_group_iff : (kind : ChatKind) → (is_group kind ≡ true) ↔ (kind ≡ group)
is_group_iff direct = (λ h. cc, λ h. cc)
is_group_iff group = (λ h. refl, λ h. refl)
is_group_iff status = (λ h. cc, λ h. cc)
is_group_iff (other n) = (λ h. cc, λ h. cc)

-- A wildcard of the configuration that covers the kind of chat.
abbrev pub Covered : List Text → ChatKind → Type 0
Covered configured direct =
    Listed configured chat_allowlist_all ⊎ Listed configured chat_allowlist_direct
Covered configured group =
    Listed configured chat_allowlist_all ⊎ Listed configured chat_allowlist_group
Covered configured _ = ⊥

module _ (owner : Text) (configured : List Text) (gate : InboundGate)
    (built : new_inbound_gate owner configured ≡ ok gate) where
  elem-gate_iff : (a : Text) → (elem a gate.allowlist ≡ true) ↔ Listed configured a
  elem-gate_iff a =
      let same = gate_allowlist owner configured gate built in
      let listed = collect_iff a [] configured in
      let found = elem_iff a (collect [] configured) in rw same (ground (arith, listed, found))

  Covered-iff :
      (kind : ChatKind)
      → (any
            (λ wildcard.
              elem wildcard gate.allowlist && chat_allowlist_wildcard_matches wildcard kind)
            wildcards
          ≡ true)
        ↔ Covered configured kind
  unfolding chat_allowlist_wildcard_matches text_eq
  Covered-iff direct =
      ground (arith, elem-gate_iff chat_allowlist_all, elem-gate_iff chat_allowlist_direct)
  Covered-iff group =
      ground (arith, elem-gate_iff chat_allowlist_all, elem-gate_iff chat_allowlist_group)
  Covered-iff status = ground arith
  Covered-iff (other _) = ground arith

  -- Some alternative address that the configuration lists.
  alternatives_iff :
      (alternatives : List Text)
      → (any
            (λ alternative. not (text_eq alternative []) && elem alternative gate.allowlist)
            alternatives
          ≡ true)
        ↔ ((a : Text) × Elem a alternatives × Listed configured a)
  alternatives_iff [] = (λ h. cc, λ (a, m, l). absurd m)
  alternatives_iff (b ∷ bs) =
      let (from, to) = alternatives_iff bs in
      let (listed, found) = elem-gate_iff b in
      let (is_empty, empty) = text_eq_iff b [] in
      (
        λ h. elim (Bool-cases (not (text_eq b []) && elem b gate.allowlist)) [
          | inl here ↦ (b, inl refl, listed (ground arith))
          | inr absent ↦ let (a, m, l) = from (ground arith) in (a, inr m, l)
        ],
        λ (a, m, l). elim m [
          | inl same ↦
              let l' = subst (λ t. Listed configured t) same l in
              let f = found l' in let none_empty = λ (e : b ≡ []). l'.1 e in ground arith
          | inr later ↦ let t = to (a, later, l) in ground arith
        ],
      )

  -- A gate built from a configuration admits a chat exactly when the configuration lists its
  -- address; or lists a wildcard for its kind; or, unless it is a group, lists one of its alternative
  -- addresses. Empty entries and empty alternatives count for nothing.
  pub chat_allowlisted_iff :
      (kind : ChatKind) (address : Text) (alternatives : List Text)
      → (chat_allowlisted gate kind address alternatives ≡ true) ↔ (
          Listed configured address
          ⊎ (Covered configured kind
              ⊎ ((kind ≢ group) × ((a : Text) × Elem a alternatives × Listed configured a))))
  unfolding chat_allowlisted
  chat_allowlisted_iff kind address alternatives =
      let here = elem-gate_iff address in
      let wild = Covered-iff kind in
      let others = alternatives_iff alternatives in
      let kinds = is_group_iff kind in ground (arith, here, wild, others, kinds)

-- A gate is built exactly when there is an entry to find.
built_iff :
    (owner : Text) (configured entries : List Text)
    → collect [] configured ≡ entries
    → ((gate : InboundGate) × (new_inbound_gate owner configured ≡ ok gate))
      ↔ ((a : Text) × Elem a entries)
unfolding new_inbound_gate
built_iff owner configured [] e = (λ (gate, h). absurd (ground arith), λ (a, m). absurd m)
built_iff owner configured (b ∷ bs) e =
    (λ h. (b, inl refl), λ h. (record { owner = owner; allowlist = b ∷ bs }, ground arith))

-- A gate is built from a configuration exactly when the configuration lists an address that is not
-- empty: a configuration without one is refused.
pub new_inbound_gate-ok_iff :
    (owner : Text) (configured : List Text)
    → ((gate : InboundGate) × (new_inbound_gate owner configured ≡ ok gate))
      ↔ ((a : Text) × Listed configured a)
new_inbound_gate-ok_iff owner configured =
    let (from, to) = built_iff owner configured (collect [] configured) refl in
    (
      λ h.
          let (a, m) = from h in
          (a, elim ((collect_iff a [] configured).0 m) [ inl n ↦ absurd n | inr l ↦ l ]),
      λ (a, l). to (a, (collect_iff a [] configured).1 (inr l)),
    )
