-- ===== src/Platform/Kafka/Chain.antt =====
-- The order of middlewares and the headers of a message that was sent
-- (platform/pkg/kafka/consumer, platform/pkg/kafka/producer).
use mathlib.Core.List.{reverse, reverse-append}
use rocket_factory.Prelude.{◌≡◌, refl, ap, ◌∙◌, some, List, [], ◌∷◌, ◌++◌, map}
use rocket_factory.Session.{Header}
use rocket_factory.Platform.Kafka.{
  Handler, Middleware, wrap, new_group_handler, extract_headers, convert_headers,
}

module _ {E W : Type 0} where
  wrap-append :
      (h : Handler E W) (ms ns : List (Middleware E W)) → wrap h (ms ++ ns) ≡ wrap (wrap h ms) ns
  wrap-append h [] ns = refl
  wrap-append h (m ∷ ms) ns = wrap-append (m h) ms ns

  -- The handler inside the middlewares, the first of which is outermost.
  abbrev pub nest : List (Middleware E W) → Handler E W → Handler E W
  nest [] h = h
  nest (m ∷ ms) h = m (nest ms h)

  -- The first middleware that is given sees a message first, and the handler sees it last.
  pub new_group_handler-nest :
      (h : Handler E W) (ms : List (Middleware E W)) → new_group_handler h ms ≡ nest ms h
  unfolding new_group_handler
  new_group_handler-nest h [] = refl
  new_group_handler-nest h (m ∷ ms) =
      ap (wrap h) (reverse-append (m ∷ []) ms)
      ∙ wrap-append h (reverse ms) (m ∷ [])
      ∙ ap m (new_group_handler-nest h ms)

-- The headers of a message that was sent are those that its consumer gets.
pub extract_headers-convert_headers :
    (hs : List Header) → extract_headers (map (λ h. some h) (convert_headers hs)) ≡ hs
unfolding extract_headers convert_headers
extract_headers-convert_headers [] = refl
extract_headers-convert_headers (h ∷ hs) = ap (λ t. h ∷ t) (extract_headers-convert_headers hs)
