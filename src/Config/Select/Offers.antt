-- ===== src/Config/Select/Offers.antt =====
-- unigateway-config/src/select.rs: the providers that are offered, and their order.
use unigateway.Prelude.{true, List, keep, map}
use unigateway.Prelude.Text.{Text, text_eq}
use unigateway.Prelude.Sorting.{Ordered, sort_by-perm, sort_by-Ordered}
use mathlib.Core.Path.{◌≡◌, sym, subst}
use mathlib.Core.List.{Perm}
use unigateway.Config.Schema.{GatewayState}
use unigateway.Config.Select.{by_priority, bindings_of, select_all_providers_for_service}
use unigateway.Prelude.Sorting.{keep-twice}
use unigateway.Config.Select.Order.{
  Pick, provider_of, can_serve, picks_of, picks_of-map, picks_of-Suits, has_provider, picks_of-keep,
  Ordered-keep, keep-Perm, by_priority-IsOrder, Offer,
}

-- The providers that a service is offered come from its bindings: each is the first provider of
-- the file that is enabled, has the name that its binding gives and, where a protocol is asked
-- for, that protocol; they stand in the order of their bindings' priorities; and every binding
-- of the service for which there is such a provider has its place among them, once, and no other
-- binding has one.
pub select_all_providers_for_service-Offer :
    (service_id protocol : Text) (s : GatewayState)
    → (picks : List Pick) × (select_all_providers_for_service service_id protocol s
        ≡ map provider_of picks)
      × Offer service_id protocol s.config.file picks
unfolding select_all_providers_for_service bindings_of
select_all_providers_for_service-Offer service_id protocol s =
    let providers = s.config.file.providers in
    let bindings = s.config.file.bindings in
    let own = keep (λ b. text_eq b.service_id service_id) bindings in
    let bs = bindings_of service_id bindings in
    let can = keep (can_serve service_id protocol providers) bindings in
    (
      picks_of protocol providers bs,
      sym (picks_of-map protocol providers bs),
      record {
        suited = picks_of-Suits protocol providers bs;
        ordered =
            subst (Ordered (λ a b. by_priority a b ≡ true))
              (sym (picks_of-keep protocol providers bs))
              (Ordered-keep _ (has_provider protocol providers) bs
                (sort_by-Ordered by_priority by_priority-IsOrder own));
        complete =
            subst (λ l. Perm l can) (sym (picks_of-keep protocol providers bs))
              (subst (Perm (keep (has_provider protocol providers) bs))
                (keep-twice (λ b. text_eq b.service_id service_id) (has_provider protocol providers)
                  bindings)
                (keep-Perm (has_provider protocol providers) bs own
                  (sort_by-perm by_priority own)));
      },
    )
