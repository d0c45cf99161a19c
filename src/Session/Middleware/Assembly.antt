-- ===== src/Session/Middleware/Assembly.antt =====
-- What a delta request is completed with.
use unigateway.Prelude.{
  ℕ, ◌==◌, ◌≡◌, refl, sym, subst, [], Bool, true, false, Option, none, some, List, ◌++◌, length,
  Result, ok, err, ◌>>=◌, ◌>>◌, >>=-eq-ok, if◌then◌else◌, ==_iff, arith,
}
use unigateway.Session.Keys.{
  SessionKey, SessionError, SessionLifecycleEvent, Fingerprint, FingerprintPolicy,
  fingerprints_match, epoch_mismatch, SizeRejectKind,
}
use unigateway.Session.Limits.{Json, SessionPrefix, validate_tail, validate_assembled}
use unigateway.Session.Store.{MemorySessionStore, Outcome, get_key}
use unigateway.Session.Middleware.{
  SessionGatewayContext, SessionMiddlewareConfig, TailPositionPolicy, Exchange, request_fingerprint,
  validate_fingerprint, validate_tail_start, raw_tail_messages, assembled, deliver, on_stored,
  assemble_delta, map_err, touch_if, fingerprint_event, tail_event, size_event,
}

map_err-ok :
    {A : Type 0} {E : Type 0} {F : Type 0} (f : E → F) (r : Result A E) {a : A}
    → map_err f r ≡ ok a
    → r ≡ ok a
map_err-ok f (ok a) h = cc
map_err-ok f (err e) h = cc

-- A required fingerprint is there on both sides, and matches.
abbrev pub Vouched : FingerprintPolicy → Option Fingerprint → Option Fingerprint → Type 0
Vouched FingerprintPolicy.required (some a) (some b) = fingerprints_match a b ≡ true
Vouched FingerprintPolicy.required _ _ = ⊥
Vouched FingerprintPolicy.optional (some a) (some b) = fingerprints_match a b ≡ true
Vouched _ _ _ = Unit

-- A position that is checked is the number of stored messages.
abbrev pub Placed : TailPositionPolicy → ℕ → Option ℕ → Type 0
Placed TailPositionPolicy.exact_prefix_length n none = ⊥
Placed TailPositionPolicy.exact_prefix_length n (some t) = t ≡ n
Placed TailPositionPolicy.optional n (some t) = t ≡ n
Placed _ _ _ = Unit

vouched :
    (p : FingerprintPolicy) (key : SessionKey) (a b : Option Fingerprint)
    → validate_fingerprint p key a b ≡ ok tt
    → Vouched p a b
unfolding validate_fingerprint
vouched FingerprintPolicy.disabled key a b h = tt
vouched FingerprintPolicy.optional key none b h = tt
vouched FingerprintPolicy.optional key (some a) none h = tt
vouched FingerprintPolicy.optional key (some a) (some b) h = ground arith
vouched FingerprintPolicy.required key none none h = cc
vouched FingerprintPolicy.required key none (some b) h = cc
vouched FingerprintPolicy.required key (some a) none h = cc
vouched FingerprintPolicy.required key (some a) (some b) h = ground arith

placed :
    (p : TailPositionPolicy) (key : SessionKey) (n : ℕ) (t : Option ℕ)
    → validate_tail_start p key n t ≡ ok tt
    → Placed p n t
unfolding validate_tail_start
placed TailPositionPolicy.ignore key n t h = tt
placed TailPositionPolicy.optional key n none h = tt
placed TailPositionPolicy.optional key n (some t) h = ground arith
placed TailPositionPolicy.exact_prefix_length key n none h = cc
placed TailPositionPolicy.exact_prefix_length key n (some t) h = ground arith

all_passed :
    {A : Type 0} {B : Type 0} {E : Type 0} (a b c : Result {0, 0} Unit E) (d : Result A E)
    (f g : A → Result {0, 0} Unit E) (m : A → B) {r : B}
    → (a >> (b >> (c >> (d >>= λ t. f t >> (g t >> ok (m t)))))) ≡ ok r
    → (a ≡ ok tt)
      × (b ≡ ok tt)
      × (c ≡ ok tt)
      × (t : A) × (d ≡ ok t)
      × (f t ≡ ok tt)
      × (g t ≡ ok tt)
      × (r ≡ m t)
all_passed (err e) b c d f g m h = cc
all_passed (ok _) (err e) c d f g m h = cc
all_passed (ok _) (ok _) (err e) d f g m h = cc
all_passed (ok _) (ok _) (ok _) (err e) f g m h = cc
all_passed (ok _) (ok _) (ok _) (ok t) f g m h =
    let (_, ft, h1) = >>=-eq-ok (f t) (λ _. g t >> ok (m t)) h in
    let (_, gt, h2) = >>=-eq-ok (g t) (λ _. ok (m t)) h1 in (refl, refl, refl, t, refl, ft, gt, cc)

module _ {V : Type 0} (j : Json V) (c : SessionMiddlewareConfig) where
  pub record Accepted (key : SessionKey) (ctx : SessionGatewayContext) (stored : SessionPrefix V)
      (raw : Option V) (merged : List V) : Type 0 where
    pub epoch : stored.epoch ≡ ctx.epoch
    pub vouched : Vouched c.fingerprint_policy stored.fingerprint (request_fingerprint ctx)
    pub placed : Placed c.tail_position_policy (length stored.messages) ctx.tail_start
    pub tail : List V
    pub sent : raw_tail_messages j c raw ≡ ok tail
    pub tail_fits : validate_tail j c.size_limits key tail ≡ ok tt
    pub fits : validate_assembled j c.size_limits key merged ≡ ok tt
    pub whole : merged ≡ stored.messages ++ tail

  assembled-Accepted :
      (key : SessionKey) (ctx : SessionGatewayContext) (stored : SessionPrefix V) (raw : Option V)
      (merged : List V)
      → assembled j c key ctx stored raw ≡ ok merged
      → Accepted key ctx stored raw merged
  unfolding assembled
  assembled-Accepted key ctx stored raw merged h =
      let (at_epoch, print, place, tail, sent, tail_fits, fits, whole) =
        all_passed
          (if stored.epoch == ctx.epoch
            then ok tt
            else err (epoch_mismatch key stored.epoch ctx.epoch, []))
          (map_err (λ e. (e, fingerprint_event key e))
            (validate_fingerprint c.fingerprint_policy key stored.fingerprint
              (request_fingerprint ctx)))
          (map_err (λ e. (e, tail_event key e))
            (validate_tail_start c.tail_position_policy key (length stored.messages)
              ctx.tail_start))
          (map_err (λ e. (e, [])) (raw_tail_messages j c raw))
          (λ tail.
            map_err (λ e. (e, size_event key SizeRejectKind.tail e))
              (validate_tail j c.size_limits key tail))
          (λ tail.
            map_err (λ e. (e, size_event key SizeRejectKind.assembled e))
              (validate_assembled j c.size_limits key (stored.messages ++ tail)))
          (λ tail. stored.messages ++ tail) h in
      record {
        epoch = (==_iff stored.epoch ctx.epoch).0 (ground arith);
        vouched = vouched _ key _ _ (map_err-ok _ _ print);
        placed = placed _ key _ _ (map_err-ok _ _ place);
        tail = tail;
        sent = map_err-ok _ _ sent;
        tail_fits = map_err-ok _ _ tail_fits;
        fits =
            subst (λ l. validate_assembled j c.size_limits key l ≡ ok tt) (sym whole)
              (map_err-ok _ _ fits);
        whole = whole;
      }

  assemble_delta-both :
      (now later : ℕ) (ctx : SessionGatewayContext) (x : Exchange V)
      → let (r, x') = assemble_delta j c now later ctx x in
        let key = c.key_resolver ctx in
        (r ≡ ok tt
          → (stored : SessionPrefix V) × (merged : List V) × ((get_key now key x.store).0
              ≡ ok (some stored))
            × Accepted key ctx stored x.raw_messages merged
            × (x'.raw_messages ≡ some (j.array merged)))
        × (c.touch_on_delta ≡ false
            → (e : SessionError) → r ≡ err e
            → x'.raw_messages ≡ x.raw_messages)
  unfolding assemble_delta on_stored deliver
  assemble_delta-both now later ctx x = looked (get_key now key x.store)
    where
      key : SessionKey
      key = c.key_resolver ctx

      sent_on :
          (b : Bool) (y : Exchange V) → (touch_if j c b later key y).1.raw_messages ≡ y.raw_messages
      sent_on true y = refl
      sent_on false y = refl

      untouched :
          (b : Bool) (y : Exchange V) (e : SessionError)
          → b ≡ false
          → (touch_if j c b later key y).0 ≡ err e
          → ⊥
      untouched true y e off h = cc
      untouched false y e off h = cc

      delivered :
          (stored : SessionPrefix V) (m : MemorySessionStore V)
          (a : Result (List V) (SessionError × List SessionLifecycleEvent))
          → assembled j c key ctx stored x.raw_messages ≡ a
          → let (r, x') = deliver j c later key ctx a (record x { store = m }) in
            (r ≡ ok tt
              → (merged : List V) × Accepted key ctx stored x.raw_messages merged
                × (x'.raw_messages ≡ some (j.array merged)))
            × (c.touch_on_delta ≡ false
                → (e : SessionError) → r ≡ err e
                → x'.raw_messages ≡ x.raw_messages)
      delivered stored m (err e) h = (λ r. cc, λ off e r. refl)
      delivered stored m (ok merged) h = (
        λ r. (merged, assembled-Accepted key ctx stored _ merged h, sent_on c.touch_on_delta _),
        λ off e r. absurd (untouched c.touch_on_delta _ e off r),
      )

      looked :
          (o : Outcome V (Option (SessionPrefix V)))
          → let (r, x') = on_stored j c later key ctx o x in
            (r ≡ ok tt
              → (stored : SessionPrefix V) × (merged : List V) × (o.0 ≡ ok (some stored))
                × Accepted key ctx stored x.raw_messages merged
                × (x'.raw_messages ≡ some (j.array merged)))
            × (c.touch_on_delta ≡ false
                → (e : SessionError) → r ≡ err e
                → x'.raw_messages ≡ x.raw_messages)
      looked (err e, m) = (λ r. cc, λ off e r. refl)
      looked (ok none, m) = (λ r. cc, λ off e r. refl)
      looked (ok (some stored), m) =
          let (fine, failed) = delivered stored m _ refl in
          (λ r. let (merged, accepted, e) = fine r in (stored, merged, refl, accepted, e), failed)

  -- Where a delta request succeeds, its messages are the stored prefix, read at this time, with the
  -- request's own messages after it; and every check that is configured holds of them.
  pub assemble_delta-Accepted :
      (now later : ℕ) (ctx : SessionGatewayContext) (x : Exchange V)
      → (assemble_delta j c now later ctx x).0 ≡ ok tt
      → (stored : SessionPrefix V) × (merged : List V) × ((get_key now
            (c.key_resolver ctx)
            x.store).0
          ≡ ok (some stored))
        × Accepted (c.key_resolver ctx) ctx stored x.raw_messages merged
        × ((assemble_delta j c now later ctx x).1.raw_messages ≡ some (j.array merged))
  assemble_delta-Accepted now later ctx x = (assemble_delta-both now later ctx x).0

  -- Where a delta request fails, and the middleware does not touch sessions itself, the request's
  -- messages are as they were.
  pub assemble_delta-Rejected :
      (now later : ℕ) (ctx : SessionGatewayContext) (x : Exchange V) (e : SessionError)
      → c.touch_on_delta ≡ false
      → (assemble_delta j c now later ctx x).0 ≡ err e
      → (assemble_delta j c now later ctx x).1.raw_messages ≡ x.raw_messages
  assemble_delta-Rejected now later ctx x e off = (assemble_delta-both now later ctx x).1 off e
