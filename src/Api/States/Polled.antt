-- ===== src/Api/States/Polled.antt =====
-- get-device-state.ts answers the same with a poller as without one.
use merossity.Prelude.{ℕ, String}
use merossity.Prelude.{◌≡◌, refl, sym, ap, ◌∙◌, ◌⊎◌, inl, inr, Bool, true, false}
use merossity.Prelude.{◌||◌, none, some, List, [], ◌∷◌, arith, eq_refl}
use merossity.Prelude.{ltb, str_eq}
use merossity.Prelude.{Bool-cases, Option-cases, get_or, map_option, length}
use mathlib.Core.Path.{subst}
use merossity.Prelude.Maps.{lookup}
use merossity.Prelude.Results.{Result-cases, ok, err}
use merossity.Prelude.Texts.{trim}
use merossity.Json.{Number, Value, get}
use merossity.Poller.Types.{DeviceStateDto, PollErrorDto, manual}
use merossity.Poller.Service.{Service, ensure_meta}
use merossity.Poller.Service.Frames.{ensure_meta_frame}
use merossity.Poller.Change.Material.{material}
use merossity.Poller.Reading.{
  SystemAll, read_state, require_lan_key, require_text, poll_code_from_error, next_updated_at,
}
use merossity.Poller.Poll.{
  PollResult, polled, failed, publish_state, poll_succeeded, poll_failed, settle_poll,
}
use merossity.Poller.PollNow.{
  poll_now_uuids, unique, worker_count, start_pool, take_uuid, finish_uuid,
}
use merossity.Api.Client.{
  Action, request, get_system_all, LanConfig, Network, Reply, refused, follow, send, or_lan_error,
  lan_access, require_lan_host, refuse_if, to_text,
}
use merossity.Api.Client.Outcomes.{Reply-cases}
use merossity.Api.Switching.{channel_of}
use merossity.Api.States.{
  PollNowResult, StateReply, match_of, poll_reply, response_reply, read_device_state,
  get_device_state,
}
use merossity.Api.States.Agreement.{
  outcome, channels_sorted, poll_reply-single, system, read_state-parts, response_reply-agrees,
  answers_of, accessed, read_device_state_lem,
}
use merossity.Api.States.Shown.{
  no_items, is_refused, primary_of-some, state_reply-material, IsOwn, kept_state,
}

module _ (parse_number : Value → Number) (print_value : Value → String)
    (locale_le : String → String → Bool) where
  -- What `pollNow` answers for one uuid: the worker takes it from the queue, if it is there, and the
  -- poll of the device settles in a service.
  module _ (to_lower_case : String → String) (cfg : LanConfig) (net : Network) (log : List Action)
      (s : Service) (started now random_value polled_at : ℕ) where
    abbrev pub settled : String → PollResult
    settled uuid =
        (settle_poll to_lower_case uuid manual started now random_value
          (answers_of parse_number print_value locale_le cfg net log uuid) s).1

    abbrev pub ask_poller : String → PollNowResult
    ask_poller uuid =
        let uuids = poll_now_uuids (some (uuid ∷ [])) s.known_hosts in
        let pool =
          finish_uuid uuid (settled uuid) (take_uuid (start_pool (worker_count uuids) uuids)) in
        record { polled_at = polled_at; states = pool.states; errors = pool.errors }

    single_uuid :
        (uuid : String)
        → trim uuid ≡ uuid
        → str_eq uuid "" ≡ false
        → poll_now_uuids (some (uuid ∷ [])) s.known_hosts ≡ uuid ∷ []
    unfolding poll_now_uuids unique
    single_uuid uuid trimmed full = rw (poll_now_uuids, trimmed, full) (rw trimmed refl)

    ask_poller-polled :
        (uuid : String) {st : DeviceStateDto}
        → trim uuid ≡ uuid
        → str_eq uuid "" ≡ false
        → settled uuid ≡ polled st
        → ask_poller uuid ≡ record { polled_at = polled_at; states = st ∷ []; errors = [] }
    unfolding take_uuid finish_uuid start_pool
    ask_poller-polled uuid trimmed full e =
        rw (single_uuid uuid trimmed full, e, take_uuid, full) refl

    ask_poller-failed :
        (uuid : String) {error : PollErrorDto}
        → trim uuid ≡ uuid
        → str_eq uuid "" ≡ false
        → settled uuid ≡ failed error
        → ask_poller uuid ≡ record { polled_at = polled_at; states = []; errors = error ∷ [] }
    unfolding take_uuid finish_uuid start_pool
    ask_poller-failed uuid trimmed full e =
        rw (single_uuid uuid trimmed full, e, take_uuid, full) refl

    settled_polled :
        (uuid : String) {st : DeviceStateDto}
        → read_state uuid manual (answers_of parse_number print_value locale_le cfg net log uuid)
          ≡ ok st
        → st.uuid ≡ uuid
        → IsOwn uuid s
        → (kept : DeviceStateDto) × (settled uuid ≡ polled kept)
          × (kept.uuid ≡ uuid)
          × (material kept ≡ material st)
    unfolding settle_poll poll_succeeded read_state publish_state
    settled_polled uuid {st} e same own =
        let next : DeviceStateDto = record st {
          updated_at =
              next_updated_at (map_option (λ p. p.updated_at) (lookup uuid s.state_by_uuid)) now;
        } in
        let s0 = (ensure_meta uuid started s).0 in
        let kept = (publish_state uuid manual next s0).1 in
        let states = ap (λ t. t.state_by_uuid) (ensure_meta_frame uuid started s) in
        let own' : IsOwn uuid s0 = rw states own in
        let (is, alike) = kept_state uuid s0 next same own' in
        (kept, rw (settled, settle_poll, e) refl, is, alike)

    settled_failed :
        (uuid : String) {message : String}
        → read_state uuid manual (answers_of parse_number print_value locale_le cfg net log uuid)
          ≡ err message
        → (error : PollErrorDto) × (settled uuid ≡ failed error) × (error.uuid ≡ uuid)
    unfolding settle_poll poll_failed read_state poll_code_from_error
    settled_failed uuid {message} e =
        let error : PollErrorDto = record {
          uuid = uuid;
          code = poll_code_from_error (to_lower_case message);
          message = message;
          at = now;
        } in
        (error, rw (settled, settle_poll, e) refl, refl)

    failed_reply :
        (uuid : String) (channel : ℕ) (error : PollErrorDto) (result : PollNowResult)
        → error.uuid ≡ uuid
        → result ≡ record { polled_at = polled_at; states = []; errors = error ∷ [] }
        → is_refused (poll_reply uuid channel result) ≡ true
    unfolding poll_reply
    failed_reply uuid channel error result e h =
        let same : str_eq error.uuid uuid ≡ true = rw e (eq_refl uuid) in
        subst (λ r. is_refused (poll_reply uuid channel r) ≡ true) (sym h)
          (rw (poll_reply, same) refl)

    -- A response without a channel and a light answers no state.
    nothing_told :
        (host : String) (channel : ℕ) (sys : SystemAll)
        → (ltb 0 (length (get_or sys.togglex_of [])) || ltb 0 (length (get_or sys.light_of [])))
          ≡ false
        → is_refused (response_reply host channel sys) ≡ true
    unfolding response_reply match_of
    nothing_told host channel sys h =
        let no_channels : get_or sys.togglex_of [] ≡ [] = no_items (ground (arith, h)) in
        let no_lights : get_or sys.light_of [] ≡ [] = no_items (ground (arith, h)) in
        rw (response_reply, no_channels, no_lights) refl

    host_read :
        (uuid message : String) {host : String}
        → require_lan_host cfg uuid ≡ ok host
        → require_text (cfg.host_of uuid) message ≡ ok host
    unfolding require_lan_host
    host_read uuid message h = elim (Option-cases (cfg.host_of uuid)) [
      | inl e ↦ cc (rw (require_lan_host, e) at h)
      | inr (host, e) ↦ rw e (ground (arith, rw (require_lan_host, e) at h))
    ]

    -- A response that tells a channel or a light is read.
    something_read :
        (uuid : String) {host key message : String} {resp : Value}
        → require_lan_host cfg uuid ≡ ok host
        → require_lan_key cfg.cloud_key cfg.env_key ≡ ok key
        → net log (request host key get_system_all) ≡ ok resp
        → read_state uuid manual (answers_of parse_number print_value locale_le cfg net log uuid)
          ≡ err message
        → let sys = system parse_number print_value locale_le resp in
          (ltb 0 (length (get_or sys.togglex_of [])) || ltb 0 (length (get_or sys.light_of [])))
          ≡ false
    unfolding read_state
    something_read uuid {resp = resp} a b c h =
        let sys = system parse_number print_value locale_le resp in
        let channels = get_or sys.togglex_of [] in
        let lights = get_or sys.light_of [] in
        let host_text = host_read uuid "No LAN host known for device uuid. Resolve host first." a in
        elim (Bool-cases (ltb 0 (length channels) || ltb 0 (length lights))) [
          | inr e ↦ e
          | inl e ↦
              let (p, found) = primary_of-some channels lights e in
              let sorted = channels_sorted parse_number resp in
              cc (rw (read_state, host_text, a, b, c, sorted, e, found) at h)
        ]

    -- Where a poll fails, the device that is asked directly does not answer a state either.
    direct_refused :
        (uuid : String) (channel : ℕ) {message : String}
        → read_state uuid manual (answers_of parse_number print_value locale_le cfg net log uuid)
          ≡ err message
        → is_refused
            (read_device_state parse_number print_value locale_le cfg net uuid channel log).0
          ≡ true
    unfolding read_device_state lan_access or_lan_error follow send
    direct_refused uuid channel h = elim (Result-cases (require_lan_host cfg uuid)) [
      | inr (m, a) ↦ rw (a, or_lan_error, follow) refl
      | inl (host, a) ↦ elim (Result-cases (require_lan_key cfg.cloud_key cfg.env_key)) [
        | inr (m, b) ↦ rw (a, or_lan_error, follow, b) refl
        | inl (key, b) ↦ elim (Result-cases (net log (request host key get_system_all))) [
          | inr (m, c) ↦ rw (a, or_lan_error, follow, b, c) refl
          | inl (resp, c) ↦
              rw (a, or_lan_error, follow, b, c)
                (nothing_told host channel (system parse_number print_value locale_le resp)
                  (something_read uuid a b c h))
        ]
      ]
    ]

    -- Where the poll reads the device, the two replies are equal but for the message of a refusal;
    -- where it fails, both are refused.
    abbrev pub Alike : (uuid : String) → (direct by_poller : Reply StateReply) → Type 0
    Alike uuid direct by_poller =
        let read =
          read_state uuid manual (answers_of parse_number print_value locale_le cfg net log uuid) in
        (((st : DeviceStateDto) × (read ≡ ok st) × (outcome direct ≡ outcome by_poller))
          ⊎ ((message : String) × (read ≡ err message)
              × (is_refused direct ≡ true)
              × (is_refused by_poller ≡ true)))

    replies-Alike :
        (uuid : String) (channel : ℕ)
        → trim uuid ≡ uuid
        → str_eq uuid "" ≡ false
        → IsOwn uuid s
        → Alike uuid
            (read_device_state parse_number print_value locale_le cfg net uuid channel log).0
            (poll_reply uuid channel (ask_poller uuid))
    replies-Alike uuid channel trimmed full own =
        let answers = answers_of parse_number print_value locale_le cfg net log uuid in
        elim (Result-cases (read_state uuid manual answers)) [
          | inr (message, e) ↦
              let (error, is, same) = settled_failed uuid e in
              let refused_too =
                failed_reply uuid channel error (ask_poller uuid) same
                  (ask_poller-failed uuid trimmed full is) in
              inr (message, e, direct_refused uuid channel e, refused_too)
          | inl (st, e) ↦
              let (key, resp, a, b, c, told) =
                accessed parse_number print_value locale_le cfg net log uuid e in
              let own_uuid =
                (read_state-parts parse_number print_value locale_le uuid answers told e).1 in
              let (kept, is, same, alike) = settled_polled uuid e own_uuid own in
              let read =
                read_device_state_lem parse_number print_value locale_le cfg net log uuid channel a
                  b c in
              let agree =
                response_reply-agrees parse_number print_value locale_le uuid channel st.updated_at
                  answers resp told e in
              let by_poller =
                poll_reply-single uuid channel polled_at (ask_poller uuid) kept same
                  (ask_poller-polled uuid trimmed full is)
                ∙ state_reply-material channel kept st alike in
              inl (st, e, ap outcome read ∙ agree ∙ sym (ap outcome by_poller))
        ]

    same-Alike :
        (uuid code message : String) → Alike uuid (refused code message) (refused code message)
    same-Alike uuid code message =
        let answers = answers_of parse_number print_value locale_le cfg net log uuid in
        elim (Result-cases (read_state uuid manual answers)) [
          | inl (st, e) ↦ inl (st, e, refl)
          | inr (m, e) ↦ inr (m, e, refl, refl)
        ]

    -- The handler with a poller compared with the handler without one, where the uuid has no space
    -- around it, the service has no state of another device under it, and the poller's one poll of
    -- the device settles with what the device would answer directly. If the poll reads the device,
    -- both reply the same state on the same channel or refuse with the same code, also where the
    -- service keeps an earlier state. If it fails, both refuse; the codes may differ.
    pub get_device_state-agrees :
        (body : Value)
        → let uuid = to_text print_value (get "uuid" body) in
          trim uuid ≡ uuid
          → IsOwn uuid s
          → let run = get_device_state parse_number print_value locale_le cfg net in
            Alike uuid ((run none body log).0) ((run (some ask_poller) body log).0)
    unfolding get_device_state refuse_if follow
    get_device_state-agrees body trimmed own =
        let uuid = to_text print_value (get "uuid" body) in
        elim (Bool-cases (str_eq uuid "")) [
          | inl e ↦ rw (refuse_if, e) (same-Alike uuid "missing_uuid" "Missing uuid")
          | inr e ↦ elim (Reply-cases (channel_of parse_number print_value (get "channel" body))) [
            | inr (code, message, f) ↦ rw (refuse_if, e, follow, f) (same-Alike uuid code message)
            | inl (channel, f) ↦
                rw (refuse_if, e, follow, f) (replies-Alike uuid channel trimmed e own)
          ]
        ]
