-- ===== src/Messages/RoundTrip.antt =====
-- Messages that are published and taken again.
use rmw_cyclonedds_c.Common.{
  ◌≡◌, refl, ap, ◌∙◌, true, false, not, List, [], ◌∷◌, ◌++◌, Option, none, some, arith,
  if◌then◌else◌, map, Bool-cases, inl, inr,
}
use rmw_cyclonedds_c.Handles.{identifiers_match}
use rmw_cyclonedds_c.Rmw.{Ret, ok, ℤ, pos}
use rmw_cyclonedds_c.Messages.{
  TypeSupport, EndpointData, Handle, endpoint_of, with_endpoint, publish_on, publish, TakeAnswers,
  SampleInfo, Target, info_of, take_on, take_with_info, legacy_uint32_ros_to_dds,
  legacy_uint32_dds_to_ros, legacy_uint32_type_support,
}

-- The conversions lose nothing: a message goes into a zeroed sample, and comes back whatever stood in
-- the memory for it.
pub record Lossless {Ros Dds : Type 0} (ts : TypeSupport Ros Dds) : Type 0 where
  pub converts : (m : Ros) → (ts.ros_to_dds m ts.zero).0 ≡ true
  pub returns : (m x : Ros) → ts.dds_to_ros (ts.ros_to_dds m ts.zero).1 x ≡ (true, m)

-- The message in the caller's memory, where `taken` says that there is one.
abbrev pub seen : {Ros : Type 0} → Option (Target Ros) → Option Ros
seen none = none
seen (some t) = if t.taken then some t.message else none

module _ {Ros Dds : Type 0} (ts : TypeSupport Ros Dds) where
  -- A publisher sends the messages one by one; DDS takes every sample.
  pub publish_all : Option (Handle Dds) → List Ros → Option (Handle Dds) × List Dds
  publish_all p [] = (p, [])
  publish_all p (m ∷ ms) =
      let r = publish ts (pos 0) p (some m) false in
      let rest = publish_all r.1 ms in (rest.0, r.2 ++ rest.1)

  -- What DDS answers to a take while it holds a sample.
  abbrev pub holding : SampleInfo → ℤ → Dds → TakeAnswers Dds
  holding info now sample = record { result = pos 1; sample = sample; info = info; now = now }

  -- A subscription takes the samples one by one, all into the same memory; the messages seen, where
  -- `taken` is set.
  pub take_all :
      SampleInfo → ℤ → Option (Handle Dds) → Option (Target Ros) → List Dds → List (Option Ros)
  take_all info now s t [] = []
  take_all info now s t (d ∷ ds) =
      let r = take_with_info ts (holding info now d) s t false in
      seen r.2 ∷ take_all info now r.1 r.2 ds

  endpoint_of-with_endpoint :
      (h : Option (Handle Dds)) (e e' : EndpointData Dds)
      → endpoint_of h ≡ some e
      → endpoint_of (with_endpoint h e') ≡ some e'
  unfolding endpoint_of
  endpoint_of-with_endpoint none e e' h = cc h
  endpoint_of-with_endpoint (some handle) e e' h =
      elim (Bool-cases (identifiers_match handle.implementation_identifier)) [
        | inl m ↦ rw m refl
        | inr m ↦ absurd (ground (arith, h, m))
      ]

  module _ (l : Lossless ts) where
    abbrev sent : Ros → Dds
    sent m = (ts.ros_to_dds m ts.zero).1

    -- What the sample held before has no influence.
    publish_on-Sent :
        (e : EndpointData Dds) (m : Ros)
        → publish_on ts (pos 0) m e
          ≡ (ok, record e { dds_sample = sent m; locked = false }, sent m ∷ [])
    unfolding publish_on
    publish_on-Sent e m = rw (publish_on, l.converts m) refl

    publish-Sent :
        (p : Option (Handle Dds)) (e : EndpointData Dds) (m : Ros)
        → endpoint_of p ≡ some e
        → publish ts (pos 0) p (some m) false
          ≡ (ok, with_endpoint p (record e { dds_sample = sent m; locked = false }), sent m ∷ [])
    unfolding publish
    publish-Sent p e m h =
        rw (publish, h)
          (ap (λ (r : Ret × EndpointData Dds × List Dds). (r.0, with_endpoint p r.1, r.2))
            (publish_on-Sent e m))

    take-Sent :
        (info : SampleInfo) (now : ℤ) (s : Option (Handle Dds)) (e : EndpointData Dds)
        (t : Target Ros) (m : Ros)
        → endpoint_of s ≡ some e
        → info.valid_data ≡ true
        → take_with_info ts (holding info now (sent m)) s (some t) false ≡ (
          ok,
          with_endpoint s (record e { dds_sample = sent m; locked = false }),
          some (record { message = m; taken = true; info = info_of now info }),
        )
    unfolding take_with_info take_on
    take-Sent info now s e t m h v =
        let valid : not info.valid_data ≡ false = ap not v in
        rw (take_with_info, h) (rw (valid, l.returns m t.message) refl)

    -- A publisher and a subscription of this implementation, of a type whose conversions lose nothing:
    -- if DDS takes every sample and hands them over in their order, the messages taken are those
    -- published, each once and in their order. The one sample that each side uses for all of them
    -- carries nothing over from one message to the next.
    pub take_all-publish_all :
        (info : SampleInfo) (now : ℤ) (p s : Option (Handle Dds)) (e e' : EndpointData Dds)
        (t : Target Ros) (ms : List Ros)
        → endpoint_of p ≡ some e
        → endpoint_of s ≡ some e'
        → info.valid_data ≡ true
        → take_all info now s (some t) (publish_all p ms).1 ≡ map some ms
    unfolding publish_all take_all
    take_all-publish_all info now p s e e' t [] hp hs v = refl
    take_all-publish_all info now p s e e' t (m ∷ ms) hp hs v =
        let e1 : EndpointData Dds = record e { dds_sample = sent m; locked = false } in
        let e1' : EndpointData Dds = record e' { dds_sample = sent m; locked = false } in
        let p1 : Option (Handle Dds) = with_endpoint p e1 in
        let s1 : Option (Handle Dds) = with_endpoint s e1' in
        ap
          (λ (r : Ret × Option (Handle Dds) × List Dds).
            take_all info now s (some t) (r.2 ++ (publish_all r.1 ms).1))
          (publish-Sent p e m hp)
        ∙ ap
            (λ (r : Ret × Option (Handle Dds) × Option (Target Ros)).
              seen r.2 ∷ take_all info now r.1 r.2 (publish_all p1 ms).1)
            (take-Sent info now s e' t m hs v)
        ∙ ap (λ (ds : List (Option Ros)). some m ∷ ds)
            (take_all-publish_all info now p1 s1 e1 e1' _ ms (endpoint_of-with_endpoint p e e1 hp)
              (endpoint_of-with_endpoint s e' e1' hs) v)

-- The adapter of std_msgs/msg/UInt32 loses nothing.
pub legacy_uint32-Lossless : Lossless legacy_uint32_type_support
unfolding legacy_uint32_ros_to_dds legacy_uint32_dds_to_ros
legacy_uint32-Lossless = record { converts = λ m. refl; returns = λ m x. refl }
