-- ===== src/Messages/Sent.antt =====
-- What one publication and one take do on every path.
use rmw_cyclonedds_c.Common.{◌≡◌, refl, ◌⊎◌, if◌then◌else◌, true, false, Option, some, arith}
use rmw_cyclonedds_c.Rmw.{Ret, ok, error, is_negative}
use rmw_cyclonedds_c.Messages.{
  TypeSupport, EndpointData, Handle, endpoint_of, with_endpoint, TakeAnswers, Target, info_of,
  take_on, take_with_info, is_zero,
}

module _ {Ros Dds : Type 0} (ts : TypeSupport Ros Dds) where
  -- The endpoint keeps all but its sample, and its lock is free.
  pub record Settled (e : EndpointData Dds) (e' : EndpointData Dds) : Type 0 where
    pub unlocked : e'.locked ≡ false
    pub endpoint : e'.endpoint ≡ e.endpoint
    pub guid : e'.guid ≡ e.guid
    pub qos : e'.qos ≡ e.qos

  -- The three ways in which a take ends, from the sample that DDS left and the time of the take.
  pub record Taken (a : TakeAnswers Dds) (t : Target Ros) (result : Ret) (t' : Target Ros)
      : Type 0 where
    pub failed : is_negative a.result ≡ true → (result ≡ error) × (t' ≡ t)
    pub nothing :
        (is_zero a.result ≡ true) ⊎ ((is_negative a.result ≡ false) × (a.info.valid_data ≡ false))
        → (result ≡ ok) × (t' ≡ record t { taken = false })
    pub message :
        is_negative a.result ≡ false
        → is_zero a.result ≡ false
        → a.info.valid_data ≡ true
        → let (converted, message) = ts.dds_to_ros a.sample t.message in
          (result ≡ (if converted then ok else error))
          × (t' ≡ (
              if converted
              then record { message = message; taken = true; info = info_of a.now a.info }
              else record t { message = message }))

  take_on-Settled :
      (a : TakeAnswers Dds) (e : EndpointData Dds) (t : Target Ros) → Settled e (take_on ts a e t).1
  unfolding take_on
  take_on-Settled a e t = ground arith

  take_on-Taken :
      (a : TakeAnswers Dds) (e : EndpointData Dds) (t : Target Ros)
      → Taken a t (take_on ts a e t).0 (take_on ts a e t).2
  unfolding take_on
  take_on-Taken a e t = ground arith

  -- `rmw_take_with_info` on a subscription of this implementation, with all pointers given, leaves
  -- the sample's lock free on every path. Where DDS fails it returns an error and touches nothing of
  -- the caller's; where there is no sample or one without data it returns OK and sets only `taken`, to
  -- false. Otherwise the message is what the conversion makes of the sample: if the conversion
  -- succeeds, it returns OK, sets `taken` to true and writes the information; if the conversion
  -- fails, it returns an error and leaves `taken` and the information as they were.
  pub take_with_info-Taken :
      (a : TakeAnswers Dds) (s : Option (Handle Dds)) (e : EndpointData Dds) (t : Target Ros)
      → endpoint_of s ≡ some e
      → (e' : EndpointData Dds) × (t' : Target Ros) × ((take_with_info ts a s (some t) false).1
          ≡ with_endpoint s e')
        × ((take_with_info ts a s (some t) false).2 ≡ some t')
        × Settled e e'
        × Taken a t (take_with_info ts a s (some t) false).0 t'
  unfolding take_with_info
  take_with_info-Taken a s e t h =
      rw (take_with_info, h)
        (
          (take_on ts a e t).1,
          (take_on ts a e t).2,
          refl,
          refl,
          take_on-Settled a e t,
          take_on-Taken a e t,
        )
