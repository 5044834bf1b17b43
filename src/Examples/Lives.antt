-- ===== src/Examples/Lives.antt =====
-- The life of an application whose handler fails to close.
use a2a_hub.Prelude.{◌≡◌, Bool, true, false, any}
use a2a_hub.Hub.Lifespan.{Act, close_handler, lifespan, is_serve, is_dispose, lifespan_exact}

abbrev fails_to_close : Act → Bool
fails_to_close close_handler = true
fails_to_close _ = false

lifespan_exact_example :
    (any is_serve (lifespan fails_to_close).begun ≡ true)
    × (any is_dispose (lifespan fails_to_close).begun ≡ false)
    × ((lifespan fails_to_close).raised ≡ true)
lifespan_exact_example = lifespan_exact fails_to_close
