-- ===== src/Invariant/Changes.antt =====
-- A change that fits a well-formed state leaves it well-formed.
use agent_scale.Base.{
  Bool-cases, inl, inr, ◌∙◌, ℕ, String, ◌≡◌, ◌≢◌, sym, true, not, List, [], ◌∷◌, ◌==◌, any, All,
  Distinct, eq_of_==, ==_of_eq, upsert_record, retain, All-map, All-×, All-upsert_record,
  All-retain, any-retain, any-upsert_record, Distinct-upsert_record, Distinct-retain,
  All-of_pointwise,
}
use agent_scale.Control.State.{
  ControlState, ClientRecord, EdgeRecord, RelayRecord, ProvisionerRecord, RevocationRecord,
  StateChange, put_client, delete_client, put_edge, delete_edge, put_relay, delete_relay,
  put_invite, delete_invite, put_provisioner, delete_provisioner, put_revocation, delete_revocation,
  apply_change, apply_changes, invite_key,
}
use agent_scale.Invariant.Tables.{InRange, edge_slot, Owned, RevocationInRange, Bounded}

-- What a change needs of the state that it is applied to.
abbrev pub Fits : ℕ → ℕ → StateChange → ControlState → Type 0
Fits b rb (put_client r) s =
    All (λ c. c.name ≡ r.name → c.endpoint_id ≡ r.endpoint_id) s.clients
    × InRange b r.credential_generation
Fits b rb (delete_client id) s = All (λ e. e.owner_id ≢ id) s.edges
Fits b rb (put_edge r) s =
    All (λ e. edge_slot e ≡ edge_slot r → e.endpoint_id ≡ r.endpoint_id) s.edges
    × InRange b r.credential_generation
    × (any (λ c. c.endpoint_id == r.owner_id) s.clients ≡ true)
Fits b rb (put_relay r) s =
    All (λ x. x.name ≡ r.name → x.endpoint_id ≡ r.endpoint_id) s.relays
    × All (λ x. x.url ≡ r.url → x.endpoint_id ≡ r.endpoint_id) s.relays
Fits b rb (put_provisioner r) s =
    All (λ x. x.name ≡ r.name → x.endpoint_id ≡ r.endpoint_id) s.provisioners
Fits b rb (put_revocation r) s = RevocationInRange b rb r
Fits b rb _ s = Unit

abbrev pub FitsAll : ℕ → ℕ → List StateChange → ControlState → Type 0
FitsAll b rb [] s = Unit
FitsAll b rb (c ∷ cs) s = Fits b rb c s × FitsAll b rb cs (apply_change c s)

module _ {ℓ} {A : Type ℓ} (id : A → String) (r : A) where
  trivially : (xs : List A) → All (λ x. id x ≡ id r → id x ≡ id r) xs
  trivially = All-of_pointwise _ (λ x e. e)

  -- The identifiers stay distinct under every update.
  pub ids-upsert :
      (xs : List A) → Distinct id xs → Distinct id (upsert_record xs r (λ item k. id item == id k))
  ids-upsert xs d = Distinct-upsert_record id id xs r d (trivially xs) d

-- An update of the clients keeps the owners, since it keeps the identifiers.
Owned-upsert :
    (clients : List ClientRecord) (r : ClientRecord) (edges : List EdgeRecord)
    → Owned clients edges
    → Owned (upsert_record clients r (λ item key. item.endpoint_id == key.endpoint_id)) edges
Owned-upsert clients r edges =
    All-map _
      (λ e o.
        any-upsert_record (λ c. c.endpoint_id == e.owner_id) clients r _
          (λ x same mine. ==_of_eq _ _ (sym (eq_of_== _ _ same) ∙ eq_of_== _ _ mine)) o)
      edges

Owned-delete :
    (clients : List ClientRecord) (id : String) (edges : List EdgeRecord)
    → All (λ e. e.owner_id ≢ id) edges
    → Owned clients edges
    → Owned (retain (λ item. not (item.endpoint_id == id)) clients) edges
Owned-delete clients id edges ne o =
    All-map _
      (λ e q.
        any-retain (λ c. c.endpoint_id == e.owner_id) _ clients
          (All-of_pointwise _ (λ c mine. other c.endpoint_id e.owner_id q.0 mine) clients)
        ∙ q.1)
      edges (All-× _ _ edges ne o)
  where
    other : (c owner : String) → owner ≢ id → (c == owner) ≡ true → not (c == id) ≡ true
    other c owner ne' mine = elim (Bool-cases (c == id)) [
      | inl e ↦ absurd (ne' (sym (eq_of_== _ _ mine) ∙ eq_of_== _ _ e))
      | inr e ↦ rw e
    ]

module _ (b rb : ℕ) where
  pub apply_change-Bounded :
      (c : StateChange) (s : ControlState)
      → Bounded b rb s
      → Fits b rb c s
      → Bounded b rb (apply_change c s)
  unfolding apply_change
  apply_change-Bounded (put_client r) s v (names, range) = record {
    clients = record {
      ids = ids-upsert (λ (c : ClientRecord). c.endpoint_id) r s.clients v.clients.ids;
      names = Distinct-upsert_record _ _ s.clients r v.clients.ids names v.clients.names;
      generations = All-upsert_record _ s.clients r _ range v.clients.generations;
    };
    edges = v.edges;
    owned = Owned-upsert s.clients r s.edges v.owned;
    relays = v.relays;
    invites = v.invites;
    provisioners = v.provisioners;
    revocations = v.revocations;
  }
  apply_change-Bounded (delete_client id) s v ne = record {
    clients = record {
      ids = Distinct-retain _ _ s.clients v.clients.ids;
      names = Distinct-retain _ _ s.clients v.clients.names;
      generations = All-retain _ _ s.clients v.clients.generations;
    };
    edges = v.edges;
    owned = Owned-delete s.clients id s.edges ne v.owned;
    relays = v.relays;
    invites = v.invites;
    provisioners = v.provisioners;
    revocations = v.revocations;
  }
  apply_change-Bounded (put_edge r) s v (slots, range, owner) = record {
    clients = v.clients;
    edges = record {
      ids = ids-upsert (λ (e : EdgeRecord). e.endpoint_id) r s.edges v.edges.ids;
      slots = Distinct-upsert_record _ _ s.edges r v.edges.ids slots v.edges.slots;
      generations = All-upsert_record _ s.edges r _ range v.edges.generations;
    };
    owned = All-upsert_record _ s.edges r _ owner v.owned;
    relays = v.relays;
    invites = v.invites;
    provisioners = v.provisioners;
    revocations = v.revocations;
  }
  apply_change-Bounded (delete_edge id) s v _ = record {
    clients = v.clients;
    edges = record {
      ids = Distinct-retain _ _ s.edges v.edges.ids;
      slots = Distinct-retain _ _ s.edges v.edges.slots;
      generations = All-retain _ _ s.edges v.edges.generations;
    };
    owned = All-retain _ _ s.edges v.owned;
    relays = v.relays;
    invites = v.invites;
    provisioners = v.provisioners;
    revocations = v.revocations;
  }
  apply_change-Bounded (put_relay r) s v (names, urls) = record {
    clients = v.clients;
    edges = v.edges;
    owned = v.owned;
    relays = record {
      ids = ids-upsert (λ (x : RelayRecord). x.endpoint_id) r s.relays v.relays.ids;
      names = Distinct-upsert_record _ _ s.relays r v.relays.ids names v.relays.names;
      urls = Distinct-upsert_record _ _ s.relays r v.relays.ids urls v.relays.urls;
    };
    invites = v.invites;
    provisioners = v.provisioners;
    revocations = v.revocations;
  }
  apply_change-Bounded (delete_relay id) s v _ = record {
    clients = v.clients;
    edges = v.edges;
    owned = v.owned;
    relays = record {
      ids = Distinct-retain _ _ s.relays v.relays.ids;
      names = Distinct-retain _ _ s.relays v.relays.names;
      urls = Distinct-retain _ _ s.relays v.relays.urls;
    };
    invites = v.invites;
    provisioners = v.provisioners;
    revocations = v.revocations;
  }
  apply_change-Bounded (put_invite r) s v _ = record {
    clients = v.clients;
    edges = v.edges;
    owned = v.owned;
    relays = v.relays;
    invites = ids-upsert invite_key r s.invites v.invites;
    provisioners = v.provisioners;
    revocations = v.revocations;
  }
  apply_change-Bounded (delete_invite id) s v _ = record {
    clients = v.clients;
    edges = v.edges;
    owned = v.owned;
    relays = v.relays;
    invites = Distinct-retain _ _ s.invites v.invites;
    provisioners = v.provisioners;
    revocations = v.revocations;
  }
  apply_change-Bounded (put_provisioner r) s v names = record {
    clients = v.clients;
    edges = v.edges;
    owned = v.owned;
    relays = v.relays;
    invites = v.invites;
    provisioners = record {
      ids =
          ids-upsert (λ (x : ProvisionerRecord). x.endpoint_id) r s.provisioners v.provisioners.ids;
      names =
          Distinct-upsert_record _ _ s.provisioners r v.provisioners.ids names v.provisioners.names;
    };
    revocations = v.revocations;
  }
  apply_change-Bounded (delete_provisioner id) s v _ = record {
    clients = v.clients;
    edges = v.edges;
    owned = v.owned;
    relays = v.relays;
    invites = v.invites;
    provisioners = record {
      ids = Distinct-retain _ _ s.provisioners v.provisioners.ids;
      names = Distinct-retain _ _ s.provisioners v.provisioners.names;
    };
    revocations = v.revocations;
  }
  apply_change-Bounded (put_revocation r) s v range = record {
    clients = v.clients;
    edges = v.edges;
    owned = v.owned;
    relays = v.relays;
    invites = v.invites;
    provisioners = v.provisioners;
    revocations = record {
      ids = ids-upsert (λ (x : RevocationRecord). x.endpoint_id) r s.revocations v.revocations.ids;
      ranges = All-upsert_record _ s.revocations r _ range v.revocations.ranges;
    };
  }
  apply_change-Bounded (delete_revocation id) s v _ = record {
    clients = v.clients;
    edges = v.edges;
    owned = v.owned;
    relays = v.relays;
    invites = v.invites;
    provisioners = v.provisioners;
    revocations = record {
      ids = Distinct-retain _ _ s.revocations v.revocations.ids;
      ranges = All-retain _ _ s.revocations v.revocations.ranges;
    };
  }

  pub apply_changes-Bounded :
      (cs : List StateChange) (s : ControlState)
      → Bounded b rb s
      → FitsAll b rb cs s
      → Bounded b rb (apply_changes cs s)
  unfolding apply_changes
  apply_changes-Bounded [] s v f = v
  apply_changes-Bounded (c ∷ cs) s v (f, fs) =
      apply_changes-Bounded cs (apply_change c s) (apply_change-Bounded c s v f) fs
