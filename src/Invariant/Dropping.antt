-- ===== src/Invariant/Dropping.antt =====
-- A session is dropped while the ready flag is down: the call returns and the session is a zombie.
use roq_fix_proxy.Prelude.{
  ℕ, ◌≡◌, refl, ◌∙◌, ap, Bool, true, false, Option, none, some, ◌∷◌, nat_eq, arith, if◌then◌else◌,
}
use roq_fix_proxy.Prelude.Text.{Text}
use roq_fix_proxy.Prelude.Map.{Map, find, assign}
use roq_fix_proxy.Prelude.Effect.{
  Result, ok, err, ◌>>◌, resume, skip, Returns, Returns-skip, Returns-then,
}
use roq_fix_proxy.Externals.{Externals}
use roq_fix_proxy.Mapping.{Mapping}
use roq_fix_proxy.Shared.{Shared}
use roq_fix_proxy.World.{World, ClientState, ClientSession, Output}
use roq_fix_proxy.World.Mappings.{MappingName}
use roq_fix_proxy.World.Access.{Method, modify_mapping, modify_users, emit, session_at}
use roq_fix_proxy.Controller.Disconnect.{
  unsubscribe_market_data, log_off_user, release_user, client_disconnected,
}
use roq_fix_proxy.Client.Connection.{
  become_zombie, zombie_from, make_zombie, close_from, close, force_from, force_disconnect,
}
use roq_fix_proxy.Client.Gate.{close_found, make_waiting, zombie_waiting}
use roq_fix_proxy.Invariant.Returning.{Returns-handler}

-- The flag is down, and these are the sessions.
abbrev Calm : Map ℕ ClientSession → World → Type 0
Calm sessions w = (w.ready ≡ false) × (w.sessions ≡ sessions)

module _ ⦃ext : Externals⦄ (s : Map ℕ ClientSession) where
  Calm-if :
      (b : Bool) (m : Method)
      → Returns (λ (w : World). (w.ready ≡ b) × Calm s w) (if b then m else skip)
  Calm-if true m = record { at = λ w h. absurd (ground (arith, h.0, h.1.0)) }
  Calm-if false m = Returns-skip

  Calm-unsubscribes : (r : Text) → Returns (Calm s) (unsubscribe_market_data r)
  unfolding unsubscribe_market_data
  Calm-unsubscribes r = record {
    at = λ w h. let x = (Calm-if w.ready _).at w (refl, h) in (x.0, x.1.1);
  }

  Calm-releases : (id : ℕ) (user : Option Text) → Returns (Calm s) (release_user id user)
  unfolding release_user modify_users ◌>>◌
  Calm-releases id none = Returns-skip
  Calm-releases id (some name) = record {
    at = λ w h.
        let x =
          (Returns-then (Calm-if w.ready (log_off_user id name))
              (record { at = λ v k. (refl, k) })).at
            w (refl, h) in
        (x.0, x.1.1);
  }

  Calm-writes : (n : MappingName) (f : Mapping → Mapping) → Returns (Calm s) (modify_mapping n f)
  unfolding modify_mapping
  Calm-writes n f = record { at = λ w h. (refl, h) }

  Calm-client_disconnected : (id : ℕ) → Returns (Calm s) (client_disconnected id)
  Calm-client_disconnected id =
      Returns-handler (Calm s) Calm-writes id Calm-unsubscribes (Calm-releases id)

-- The call returned, `H` holds still, and the session is a zombie.
abbrev pub Dropped :
    (World → Type 0) → ℕ → ClientSession → World → Result (Unit {0}) × World → Type 0
Dropped H id c w x =
    (x.0 ≡ ok tt)
    × H x.1
    × (x.1.sessions ≡ assign id (record c { state = ClientState.zombie }) w.sessions)

-- What has to hold for a session to be dropped: that the controller's handler of its disconnect
-- returns and leaves the sessions alone.
pub record LetsDrop ⦃ext : Externals⦄ (H : World → Type 0) : Type 0 where
  pub with_sessions :
      (m : Map ℕ ClientSession) (s : Shared) (w : World)
      → H w
      → H (record w { sessions = m; shared = s })
  pub with_out : (o : Output) (w : World) → H w → H (record w { out = o ∷ w.out })
  pub returns :
      (id : ℕ) (m : Map ℕ ClientSession)
      → Returns (λ w. H w × (w.sessions ≡ m)) (client_disconnected id)

module _ ⦃ext : Externals⦄ (H : World → Type 0) (d : LetsDrop H) (id : ℕ) (c : ClientSession) where
  becomes :
      (w : World)
      → find id w.sessions ≡ some c
      → H w
      → Dropped H id c w (zombie_from ClientState.waiting_logon id w)
  becomes w there h = rw (zombie_waiting id c w there) (refl, d.with_sessions _ _ w h, refl)

  after_disconnect :
      (w : World) (r : Result (Unit {0})) (v : World)
      → find id w.sessions ≡ some c
      → (r ≡ ok tt) × H v × (v.sessions ≡ w.sessions)
      → Dropped H id c w (resume r (λ _. zombie_from ClientState.waiting_logon id) v)
  after_disconnect w (err e) v there h = absurd cc
  after_disconnect w (ok tt) v there h =
      let x = becomes v (rw h.2 there) h.1 in
      (x.0, x.1, x.2 ∙ ap (assign id (record c { state = ClientState.zombie })) h.2)

  disconnects :
      (w : World)
      → find id w.sessions ≡ some c
      → H w
      → Dropped H id c w ((do client_disconnected id; become_zombie id) w)
  unfolding ◌>>◌ zombie_from
  disconnects w there h =
      let x = (d.returns id w.sessions).at w (h, refl) in
      after_disconnect w _ _ there (x.0, x.1.0, x.1.1)

  pub made :
      (t : ClientState) (w : World)
      → (t ≡ ClientState.zombie → ⊥)
      → find id w.sessions ≡ some c
      → H w
      → Dropped H id c w (zombie_from t id w)
  unfolding zombie_from
  made ClientState.waiting_logon w live there h = becomes w there h
  made ClientState.waiting_create_route w live there h = disconnects w there h
  made ClientState.ready w live there h = disconnects w there h
  made ClientState.waiting_remove_route w live there h = disconnects w there h
  made ClientState.zombie w live there h = absurd (live refl)

module _ ⦃ext : Externals⦄ where
  pub Down-LetsDrop : LetsDrop (λ w. w.ready ≡ false)
  Down-LetsDrop = record {
    with_sessions = λ m s w h. h;
    with_out = λ o w h. h;
    returns = λ id m. Calm-client_disconnected m id;
  }

module _ ⦃ext : Externals⦄ (id : ℕ) (c : ClientSession) where
  abbrev pub closing : World → World
  closing w = record w { out = Output.close_client id ∷ w.out }

  closes :
      (t : ClientState) (w : World)
      → (t ≡ ClientState.zombie → ⊥)
      → close_from t id w ≡ make_zombie id (closing w)
  unfolding close_from ◌>>◌ emit
  closes ClientState.waiting_logon w live = refl
  closes ClientState.waiting_create_route w live = refl
  closes ClientState.ready w live = refl
  closes ClientState.waiting_remove_route w live = refl
  closes ClientState.zombie w live = absurd (live refl)

  forces :
      (t : ClientState) (w : World) → (t ≡ ClientState.zombie → ⊥) → force_from t id w ≡ close id w
  unfolding force_from
  forces ClientState.waiting_logon w live = refl
  forces ClientState.waiting_create_route w live = refl
  forces ClientState.ready w live = refl
  forces ClientState.waiting_remove_route w live = refl
  forces ClientState.zombie w live = absurd (live refl)

  pub close_live :
      (w : World)
      → (c.state ≡ ClientState.zombie → ⊥)
      → find id w.sessions ≡ some c
      → close id w ≡ zombie_from c.state id (closing w)
  close_live w live there =
      close_found id c w there ∙ (closes c.state w live ∙ make_waiting id c (closing w) there)

  force_found :
      (w : World) → find id w.sessions ≡ some c → force_disconnect id w ≡ force_from c.state id w
  unfolding force_disconnect ◌>>◌
  force_found w there = rw (there, force_disconnect, session_at) refl

  pub force_live :
      (w : World)
      → (c.state ≡ ClientState.zombie → ⊥)
      → find id w.sessions ≡ some c
      → force_disconnect id w ≡ zombie_from c.state id (closing w)
  force_live w live there = force_found w there ∙ (forces c.state w live ∙ close_live w live there)

  pub force_dead :
      (w : World)
      → c.state ≡ ClientState.zombie
      → find id w.sessions ≡ some c
      → force_disconnect id w ≡ (ok tt, w)
  unfolding force_from skip
  force_dead w dead there = force_found w there ∙ ap (λ t. force_from t id w) dead
