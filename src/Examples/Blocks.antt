-- ===== src/Examples/Blocks.antt =====
-- Scan blocks and firmware data at concrete inputs.
use ldcp_sdk.Prelude.{
  ◌++◌, ℕ, ◌+◌, ◌*◌, ◌≡◌, refl, true, false, List, [], ◌∷◌, some, arith, leb, length,
}
use ldcp_sdk.Prelude.Int.{pos}
use ldcp_sdk.Json.Tree.{Tree, object, field, end, number, tree_json, tree_data}
use ldcp_sdk.Session.{Event, Executed, finish_command, wait_for, response_ready, deliver}
use ldcp_sdk.Packet.{read_uint16}
use ldcp_sdk.Device.{angular_fov_270deg, assigned}
use ldcp_sdk.Device.Sent.{numbered, execute_command-open}
use ldcp_sdk.Device.Block.{BlockData, LayeredBlock, read_oob, read_notification}
use ldcp_sdk.Device.Block.Layers.{layer_value, IsMeasured}
use ldcp_sdk.Device.Block.Notifications.{read_notification-measured}
use ldcp_sdk.Device.Block.Packets.{is_some, sample_size, read_oob-fits}
use ldcp_sdk.Device.Scan.{ScanFrame}
use ldcp_sdk.Device.Block.Frames.{Stamp, packets_from}
use ldcp_sdk.Device.Reader.{Ended, read_session_frame}
use ldcp_sdk.Device.Reader.Fuel.{read_session_frame-ends}
use ldcp_sdk.Device.Reader.Stream.{Whole, all_packets, AllShown, read_frames, read_frames-packets}
use ldcp_sdk.Device.Mac.{as_mac, mac_value, as_mac-mac_value}
use ldcp_sdk.Bootloader.{encoded_request, write_data}
use mathlib.Core.List.{foldl}
use ldcp_sdk.Prelude.{replicate}
use ldcp_sdk.Base64.{base64_encode}
use ldcp_sdk.Bootloader.Static.{uploads, finish_all, new_uploading, read_as, uploads-last}
use ldcp_sdk.Bootloader.Content.{Uploads, write_data-Uploads}
use ldcp_sdk.Examples.Loopback.{Loopback, loopback, idle_link}
use ldcp_sdk.Examples.Sessions.{Link, opened}

-- A header alone, which tells 2 measurements.
abbrev header_only : List ℕ
header_only = 255 ∷ 255 ∷ 0 ∷ 0 ∷ 1 ∷ 8 ∷ 2 ∷ 0 ∷ 0 ∷ 0 ∷ 0 ∷ 0 ∷ 0 ∷ 0 ∷ 0 ∷ 0 ∷ []

read_oob-fits_example :
    is_some (read_oob header_only)
    ≡ leb (16 + read_uint16 header_only 6 * sample_size header_only) (length header_only)
read_oob-fits_example = read_oob-fits header_only (omega arith)

abbrev pub two_ranges : BlockData
two_ranges = record { ranges = 500 ∷ 501 ∷ []; intensities = 30 ∷ 31 ∷ [] }

abbrev pub blank_block : LayeredBlock
blank_block = record {
  block_index = pos 0;
  block_count = 0;
  block_length = 0;
  timestamp = 0;
  angular_fov = angular_fov_270deg;
  layers = [];
}

abbrev block_notification : Tree
block_notification = object (
    field "params"
      (object (
        field "block" (number (pos 3)) (
          field "timestamp" (number (pos 100000)) (
            field "layers" (tree_data.array (layer_value tree_json tree_data two_ranges ∷ []))
              end))))
      end)

two_ranges-IsMeasured : IsMeasured tree_json tree_data 2 two_ranges
two_ranges-IsMeasured = record {
  as_many = refl;
  are_words = (omega arith, (omega arith, tt));
  are_bytes = (omega arith, (omega arith, tt));
  has_ranges = λ e. cc;
  has_intensities = λ e. cc;
}

read_notification-measured_example :
    read_notification tree_json tree_data blank_block block_notification
    ≡ some (record {
      block_index = pos 3;
      block_count = 8;
      block_length = 2;
      timestamp = 100000;
      angular_fov = angular_fov_270deg;
      layers = two_ranges ∷ [];
    })
read_notification-measured_example =
    read_notification-measured tree_json tree_data blank_block block_notification (pos 3) 100000 2
      two_ranges [] refl refl (omega arith) refl (two_ranges-IsMeasured, tt)

abbrev linked : Link
linked = record opened { response_queue = [] }

abbrev data_written : Executed Link (Event Tree) Tree
data_written = finish_command tree_json loopback (
    wait_for (response_ready tree_json loopback) (deliver tree_json loopback) [] (
      numbered tree_json loopback linked
        (encoded_request tree_json tree_data loopback "firmware/writeData" "content" (1 ∷ 2 ∷ []))
        idle_link))

write_data-Uploads_example :
    (y : Loopback) × (data_written.state.transport ≡ some y)
    × Uploads tree_json tree_data loopback idle_link y "firmware/writeData" "content"
        (1 ∷ 2 ∷ [])
        (pos 5)
unfolding write_data
write_data-Uploads_example =
    write_data-Uploads tree_json tree_data loopback (1 ∷ 2 ∷ []) linked [] idle_link data_written
      (omega arith, (omega arith, tt)) refl
      (execute_command-open tree_json loopback linked
        (encoded_request tree_json tree_data loopback "firmware/writeData" "content" (1 ∷ 2 ∷ []))
        [] idle_link refl)

as_mac-mac_value_example :
    as_mac tree_json tree_data loopback
      (mac_value tree_json tree_data loopback (0 ∷ 26 ∷ 43 ∷ 255 ∷ 16 ∷ 1 ∷ []))
    ≡ assigned (0 ∷ 26 ∷ 43 ∷ 255 ∷ 16 ∷ 1 ∷ [])
as_mac-mac_value_example =
    as_mac-mac_value tree_json tree_data loopback 0 26 43 255 16 1
      (omega arith, (omega arith, (omega arith, (omega arith, (omega arith, (omega arith, tt))))))

abbrev pub blank_frame : ScanFrame
blank_frame = record {
  timestamp = 0;
  angular_fov = angular_fov_270deg;
  ranges = [];
  intensities = [];
}

abbrev pub two_more : BlockData
two_more = record { ranges = 502 ∷ 503 ∷ []; intensities = 32 ∷ 33 ∷ [] }

abbrev pub stamp : Stamp
stamp = record {
  frame_index = 7;
  count = 2;
  time = 100000;
  checksum = λ i. i;
  wide = false;
  full = true;
}

abbrev seventh : Whole
seventh = record {
  stamp = stamp;
  width = 2;
  first = two_ranges;
  others = two_more ∷ [];
  wide = ((refl, refl), ((refl, refl), tt));
  many = refl;
}

abbrev eighth : Whole
eighth = record {
  stamp = record stamp { frame_index = 8; time = 200000 };
  width = 2;
  first = two_more;
  others = two_ranges ∷ [];
  wide = ((refl, refl), ((refl, refl), tt));
  many = refl;
}

-- A session whose OOB queue has the last packet of a frame, two whole frames, and a packet behind
-- them.
abbrev buffered : Link
buffered = record opened {
  scan_block_queue_oob =
      packets_from (record stamp { frame_index = 6 }) 1 (two_more ∷ [])
      ++ (all_packets (seventh ∷ eighth ∷ []) ++ (header_only ∷ []));
}

read_frames-packets_example :
    (fs : List ScanFrame) × (read_frames tree_json tree_data loopback blank_block 2 buffered
        blank_frame []
      ≡ some (record buffered { scan_block_queue_oob = header_only ∷ [] }, fs))
    × AllShown (seventh ∷ eighth ∷ []) fs
read_frames-packets_example =
    read_frames-packets tree_json tree_data loopback blank_block (record stamp { frame_index = 6 })
      2 0 (two_more ∷ []) seventh (eighth ∷ []) (header_only ∷ []) buffered blank_frame []
      ((refl, refl), tt) refl refl

read_session_frame-ends_example :
    (e : Ended Link (Event Tree)) × (read_session_frame tree_json tree_data loopback buffered
        blank_block blank_frame []
      ≡ some e)
read_session_frame-ends_example =
    read_session_frame-ends tree_json tree_data loopback buffered blank_block blank_frame []

uploads-last_example :
    (finish_all 2
      (foldl uploads new_uploading ((1 ∷ []) ∷ (((2 ∷ []) ∷ []) ++ ((3 ∷ []) ∷ []))))).wire
    ≡ read_as (base64_encode (1 ∷ [])) ∷ replicate 2 (read_as (base64_encode (3 ∷ [])))
uploads-last_example = uploads-last (1 ∷ []) ((2 ∷ []) ∷ []) (3 ∷ []) (refl, (refl, tt))
