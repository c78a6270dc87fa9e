-- ===== src/Device/Block/Notifications.antt =====
-- A whole notification of a scan block (src/device.cpp, readScanBlock).
use mathlib.Core.Option
use ldcp_sdk.Prelude.{
  ℕ, zero, suc, ◌^◌, ◌%◌, ◌<◌, ◌≡◌, refl, ap, ◌∙◌, sym, subst, List, [], ◌∷◌, ◌++◌, map, some,
  arith, length, length-append, append_assoc, All,
}
use ldcp_sdk.Prelude.Int.{ℤ, pos}
use ldcp_sdk.Json.{Json}
use ldcp_sdk.Json.Data.{JsonData, item}
use ldcp_sdk.Device.{angular_fov_270deg}
use ldcp_sdk.Device.Words.{wrap_32}
use ldcp_sdk.Device.Block.{BlockData, LayeredBlock, resize_layers, read_layers, read_notification}
use ldcp_sdk.Device.Block.Layers.{layer_value, IsMeasured, read_layer-measured}

item-append {ℓ} :
    {A : Type ℓ} (front : List A) (x : A) (back : List A)
    → item (front ++ (x ∷ back)) (length front) ≡ some x
unfolding item
item-append [] x back = refl
item-append (y ∷ front) x back = item-append front x back

length-resize_layers : (n : ℕ) (olds : List BlockData) → length (resize_layers n olds) ≡ n
unfolding resize_layers
length-resize_layers zero olds = refl
length-resize_layers (suc n) [] = ap (λ (k : ℕ). suc k) (length-resize_layers n [])
length-resize_layers (suc n) (old ∷ olds) = ap (λ (k : ℕ). suc k) (length-resize_layers n olds)

-- block_length behind the loop.
abbrev length_after : ℕ → ℕ → List BlockData → ℕ
length_after n block_length [] = block_length
length_after n block_length (layer ∷ layers) = n

after_same : (n : ℕ) (layers : List BlockData) → length_after n n layers ≡ n
after_same n [] = refl
after_same n (layer ∷ layers) = refl

module _ (j : Json) (d : JsonData j) where
  open j use {Value}

  map-length : (layers : List BlockData) → length (map (layer_value j d) layers) ≡ length layers
  map-length [] = refl
  map-length (layer ∷ layers) = ap (λ (k : ℕ). suc k) (map-length layers)

  read_layers-measured :
      (n block_length : ℕ) (front : List Value) (layers olds : List BlockData)
      → length olds ≡ length layers
      → All (IsMeasured j d n) layers
      → read_layers j d
          (d.array (front ++ map (layer_value j d) layers))
          (length front)
          block_length
          olds
        ≡ some (length_after n block_length layers, layers)
  unfolding read_layers Option.bind
  read_layers-measured n block_length front [] [] h a = refl
  read_layers-measured n block_length front [] (old ∷ olds) h a = absurd (omega arith)
  read_layers-measured n block_length front (layer ∷ layers) [] h a = absurd (omega arith)
  read_layers-measured n block_length front (layer ∷ layers) (old ∷ olds) h (m, a) =
      let it = layer_value j d layer in
      let values = map (layer_value j d) layers in
      let one : List Value = it ∷ [] in
      let longer : length (front ++ one) ≡ suc (length front) =
        omega (arith, length-append front one) in
      let rest : read_layers j d (d.array (front ++ (it ∷ values))) (suc (length front)) n olds
          ≡ some (n, layers) =
        subst (λ k. read_layers j d (d.array (front ++ (it ∷ values))) k n olds ≡ some (n, layers))
          longer
          (ap (λ all. read_layers j d (d.array all) (length (front ++ one)) n olds)
              (sym (append_assoc front one values))
            ∙ read_layers-measured n n (front ++ one) layers olds (omega (arith, h)) a
            ∙ ap (λ k. some (k, layers)) (after_same n layers)) in
      rw
        (
          d.element-array (front ++ (it ∷ values)) (length front) it (item-append front it values),
          read_layer-measured j d n block_length layer old m,
          rest,
        )
        refl

  -- A notification whose layers have measurements, each of `n` ranges, reads as the block that it
  -- tells: its index, its time, and the ranges and intensities of each layer.
  pub read_notification-measured :
      (b : LayeredBlock) (v : Value) (block : ℤ) (time n : ℕ) (layer : BlockData)
      (layers : List BlockData)
      → j.get_int (j.member (j.member v "params") "block") ≡ block
      → j.get_int64 (j.member (j.member v "params") "timestamp") ≡ pos time
      → time < 2 ^ 32
      → j.member (j.member v "params") "layers" ≡ d.array (map (layer_value j d) (layer ∷ layers))
      → All (IsMeasured j d n) (layer ∷ layers)
      → read_notification j d b v
        ≡ some (record {
          block_index = block;
          block_count = 8;
          block_length = n;
          timestamp = time;
          angular_fov = angular_fov_270deg;
          layers = layer ∷ layers;
        })
  unfolding read_notification wrap_32
  read_notification-measured b v block time n layer layers at_block at_time small at_layers a =
      let all = map (layer_value j d) (layer ∷ layers) in
      let whole : time % 2 ^ 32 ≡ time = omega arith in
      let sized : length (resize_layers (length all) b.layers) ≡ length (layer ∷ layers) =
        length-resize_layers (length all) b.layers ∙ ap (λ (k : ℕ). suc k) (map-length layers) in
      rw
        (
          at_block,
          at_time,
          at_layers,
          d.size-array all,
          read_layers-measured n b.block_length [] (layer ∷ layers)
              (resize_layers (length all) b.layers) sized a,
        )
        (ap
          (λ t. some (record {
            block_index = block;
            block_count = 8;
            block_length = n;
            timestamp = t;
            angular_fov = angular_fov_270deg;
            layers = layer ∷ layers;
          }))
          whole)
